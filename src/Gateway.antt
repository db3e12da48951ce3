-- ===== src/Gateway.antt =====
-- src/gateway: the packets that it builds and reads, its session table, and the server itself.
pub mod Packets
pub mod Chunking
pub mod AppName
pub mod Sessions
pub mod Server
pub mod Process
pub mod Options
