-- ===== src/Config.antt =====
-- `getConfig` of backend/src/config/env.js, and the client of backend/src/config/supabase.js.
pub mod Environment
pub mod Supabase
pub mod Secrets
pub mod Settings
mod Tests
