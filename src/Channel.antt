-- ===== src/Channel.antt =====
-- pkg/channel: how replies reach the clients.
pub mod Broadcaster
pub mod Respond
pub mod Telegram
pub mod Web
