-- ===== src/Grpc.antt =====
-- The client of the emulator's gRPC service (appliance/grpc_client.py).
pub mod Stream
pub mod Calls
pub mod Keys
