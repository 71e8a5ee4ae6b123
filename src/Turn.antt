-- ===== src/Turn.antt =====
-- appliance/turn.py: the TURN relay and its credentials.
pub mod Relay
pub mod Laws
pub mod Config
pub mod Peers
