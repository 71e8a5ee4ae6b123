-- ===== src/Emulator.antt =====
-- appliance/emulator.py: the qemu process, its logs, the GPU and the locks of the AVD.
pub mod Log
pub mod LogLaws
pub mod Process
pub mod Stop
