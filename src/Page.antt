-- ===== src/Page.antt =====
-- The pages: the handlers of frontend/src/App.jsx and frontend/src/pages/Dashboard.jsx, and what
-- these, AuthPage.jsx and frontend/src/components render.
pub mod Html
pub mod Toasts
pub mod Parts
pub mod Frame
pub mod View
pub mod Offers
pub mod Screens
pub mod Dashboard
pub mod Honest
pub mod Times
mod Tests
mod ViewTests
