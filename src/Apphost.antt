-- ===== src/Apphost.antt =====
-- src/apphost: the process that runs one plugin for one session.
pub mod PixelCapture
pub mod UiHost
pub mod Process
pub mod Options
pub mod PluginLoader
