-- ===== src/Session.antt =====
-- appliance/session.py: the dashboard's WebSocket session.
pub mod Keyboard
pub mod Keys
pub mod Release
pub mod Limits
pub mod Rate
pub mod Viewers
pub mod Counting
pub mod Messages
pub mod Dispatch
pub mod Fields
pub mod Safety
pub mod Scroll
pub mod Outbox
pub mod Delivery
pub mod Lifting
