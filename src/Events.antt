-- ===== src/Events.antt =====
-- The consumer of the event stream: `startConsumer` of backend/src/events/eventStream.js, and the handler
-- of backend/src/events/reportsConsumer.js.
pub mod Consumer
pub mod Delivery
pub mod Reports
pub mod Audited
mod Tests
