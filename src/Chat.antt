-- ===== src/Chat.antt =====
-- The chat of src/CollabVM.cpp: the circular history with `SendChatHistory`, mutes, and
-- `OnChatInstruction`.
pub mod Ring
pub mod Instruction
