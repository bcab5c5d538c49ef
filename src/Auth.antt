-- ===== src/Auth.antt =====
-- Sign-up, log-in and the rotation of refresh tokens: backend/src/controllers/auth.controller.js,
-- backend/src/models/user.model.js, backend/src/utils/jwt.js and backend/src/utils/password.js.
pub mod Accounts
pub mod Secrets
pub mod Steps
pub mod Controller
pub mod Requests
pub mod Stable
pub mod Roles
pub mod Login
pub mod Rotation
pub mod Memory
pub mod Concurrent
mod Tests
