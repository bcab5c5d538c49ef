-- ===== src/Forms.antt =====
-- What the page's form lets through and what the API's schemas accept:
-- frontend/src/components/TaskModal.jsx and the schemas of backend/src/models.
pub mod Trim
pub mod Schema
pub mod Accounts
pub mod TaskForm
pub mod Accepted
mod Tests
