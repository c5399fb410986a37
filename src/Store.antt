-- ===== src/Store.antt =====
-- The message store: documents, ranges of sequence numbers, and the numbering of new messages.
pub mod Docs
pub mod Range
pub mod Insert
mod Tests
