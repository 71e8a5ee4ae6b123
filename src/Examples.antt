-- ===== src/Examples.antt =====
-- The theorems at concrete inputs.
mod Supervisor
mod Input
mod Auth
mod Bridge
mod Avd
mod Turn
mod Session
mod Backend
mod Emulator
mod Api
mod Config
mod Grpc
mod Daemon
mod Mcp
mod Queues
