-- ===== src/Processor.antt =====
-- Conversation identifiers and message options (pkg/msgprocessor).
pub mod Strings
pub mod Options
pub mod Conversation
mod Tests
