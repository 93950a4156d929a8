-- ===== src/Session.antt =====
-- Package internal/session and the peer it holds: who is connected to which conversation.
pub mod Config
pub mod Connection
pub mod Conversation
pub mod State
pub mod Manager
