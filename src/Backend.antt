-- ===== src/Backend.antt =====
-- appliance/backend.py: the operations on the device.
pub mod Shell
pub mod Words
pub mod Calls
pub mod Apps
pub mod Files
pub mod Nodes
pub mod Centers
pub mod Traces
pub mod Leases
pub mod Safety
pub mod Packages
