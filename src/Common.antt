-- ===== src/Common.antt =====
-- src/common: what the gateway, the AppHost and the client share.
pub mod MessageHandler
pub mod ByteOrder
pub mod InputEvent
pub mod Rect
pub mod Dl
pub mod Sending
