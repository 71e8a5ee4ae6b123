-- ===== src/Config.antt =====
-- The configuration of the daemon (appliance/config.py).
pub mod Fields
pub mod Load
pub mod Laws
pub mod Valid
