-- ===== src/Api.antt =====
-- appliance/api.py: who may reach the API, what requests hold, what they ask of the backend, and the
-- headers of the responses.
pub mod Gate
pub mod Access
pub mod Body
pub mod Bounds
pub mod Values
pub mod Routes
pub mod Checked
pub mod Touches
pub mod Demands
pub mod Responses
pub mod Hardened
