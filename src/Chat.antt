-- ===== src/Chat.antt =====
-- backend/src/chat: the chat runs of the Teams and the gate that they share.
pub mod Gate
pub mod Run
