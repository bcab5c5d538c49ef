-- ===== src/Report.antt =====
-- Reports: backend/src/services/report.service.js, backend/src/controllers/report.controller.js,
-- backend/src/queue/reportQueue.js and backend/src/workers.
pub mod Build
pub mod Counts
pub mod Worker
pub mod Mail
pub mod Attempts
pub mod Concurrent
pub mod Exclusive
pub mod Jobs
pub mod Access
pub mod Samples
pub mod Station
pub mod Told
mod Tests
mod ProcessTests
