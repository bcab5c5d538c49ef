-- ===== src/Client.antt =====
-- The browser: frontend/src/services/api.js, frontend/src/hooks/useAuth.js and
-- frontend/src/hooks/useTasks.js.
pub mod Session
pub mod Kept
pub mod Tab
pub mod SingleFlight
pub mod Settles
pub mod Told
pub mod Board
pub mod Rows
pub mod Account
mod Tests
mod TabTests
