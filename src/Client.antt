-- ===== src/Client.antt =====
-- src/client: what the client sends and how it answers packets.
pub mod Requests
pub mod Renderer
pub mod Runtime
pub mod PluginLoader
pub mod Program
