-- ===== src/Plugins.antt =====
-- plugins: the programs that the AppHost and the client load.
pub mod App2048
pub mod Drawing
pub mod Game
pub mod Demo
pub mod Viewer
