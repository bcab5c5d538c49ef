-- ===== src/Service.antt =====
-- What the services around the API give: answers of the Supabase client, and the audit log and the
-- event stream that the controllers write to.
pub mod Answer
pub mod Effects
pub mod Sample
