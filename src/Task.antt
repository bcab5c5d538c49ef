-- ===== src/Task.antt =====
-- Tasks: backend/src/models/task.model.js and backend/src/controllers/task.controller.js.
pub mod Types
pub mod Model
pub mod Controller
pub mod Tables
pub mod Touches
pub mod Isolation
pub mod Requests
pub mod Disclosure
pub mod Outcomes
pub mod Mutations
pub mod Memory
pub mod Concurrent
pub mod Alone
pub mod Calls
pub mod Rules
pub mod Interleaved
pub mod Chained
mod Tests
