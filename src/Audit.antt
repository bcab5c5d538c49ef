-- ===== src/Audit.antt =====
-- The tamper-evident audit log (backend/src/utils/audit.js): records linked into a chain of HMACs.
-- `hmac key message` stands for `crypto.createHmac('sha256', key).update(message).digest('hex')`.
pub mod Json
pub mod Chain
pub mod Linked
pub mod Emission
pub mod Grouping
pub mod Verify
pub mod Tamper
pub mod Transport
pub mod Script
mod Tests
