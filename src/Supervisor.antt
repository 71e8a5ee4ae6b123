-- ===== src/Supervisor.antt =====
-- appliance/supervisor.py: the lifecycle state machine, idle policy, leases and crashes.
pub mod Types
pub mod Activity
pub mod Lifecycle
pub mod Requests
pub mod Events
pub mod Invariant
pub mod Waiters
pub mod Progress
pub mod Policy
pub mod Device
pub mod Authorized
