-- ===== src/Daemon.antt =====
-- appliance/__main__.py: the daemon's main program.
pub mod Watchdog
pub mod Silence
pub mod Serve
