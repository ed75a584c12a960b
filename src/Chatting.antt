-- ===== src/Chatting.antt =====
-- src/features/chatting: messages, who has read them, and conversations.
pub mod Messages
pub mod ReadStatus
pub mod Conversations
