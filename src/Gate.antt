-- ===== src/Gate.antt =====
-- The middleware before the handlers: backend/src/middleware/authenticate.js, authorize.js and
-- errorHandler.js.
pub mod Middleware
pub mod Admission
mod Tests
