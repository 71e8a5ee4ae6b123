-- ===== src/Avd.antt =====
-- appliance/avd.py: the AVD's configuration.
pub mod Ini
pub mod Laws
pub mod Configure
pub mod Data
pub mod Steps
pub mod Safety
