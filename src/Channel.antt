-- ===== src/Channel.antt =====
-- RTCDataChannel of lib/index.js.
pub mod Data
pub mod Sending
pub mod Lifecycle
pub mod Inbox
