-- ===== src/Bridge.antt =====
-- appliance/webrtc.py: the signaling bridge between the viewers and the emulator's streams.
pub mod Streams
pub mod Answer
pub mod Lines
pub mod Accepts
pub mod Limits
pub mod Relay
pub mod Relayed
