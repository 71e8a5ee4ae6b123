-- ===== src/Input.antt =====
-- appliance/input.py: touch gestures, the key tables and the pointers of a session.
pub mod Touch
pub mod Gestures
pub mod Pointers
pub mod Keys
pub mod KeyLaws
pub mod Fingers
