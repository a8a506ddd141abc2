-- ===== src/Chat.antt =====
-- src/chat: messages and their JSON text, the bounded queue, and the session.
pub mod Message
pub mod Queue
pub mod Session
