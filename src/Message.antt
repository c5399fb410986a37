-- ===== src/Message.antt =====
-- The message service (internal/rpc/msg): checking, preparing and queueing a message, revoking one, and
-- what a user has read.
pub mod Model
pub mod Verify
pub mod Prepare
pub mod Send
pub mod Revoke
pub mod AsRead
mod Tests
