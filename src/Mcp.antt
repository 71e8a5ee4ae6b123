-- ===== src/Mcp.antt =====
-- appliance/mcp_server.py: the operations as tools of an agent, over the client of the API.
pub mod Spool
pub mod Tools
pub mod Boot
pub mod Timely
pub mod Bounds
