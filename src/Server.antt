-- ===== src/Server.antt =====
-- The whole API: backend/src/app.js with the routers of backend/src/routes, the middleware and the
-- controllers behind them, and the process of backend/server.js.
pub mod Metrics
pub mod Lifecycle
pub mod Routes
pub mod Validate
pub mod App
pub mod Pipeline
pub mod Guarded
pub mod EndToEnd
pub mod Logging
pub mod Samples
mod Tests
mod ProcessTests
