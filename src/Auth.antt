-- ===== src/Auth.antt =====
-- Who may do what, and which tokens are accepted (pkg/authverify, internal/rpc/auth,
-- pkg/common/db/controller/auth.go).
pub mod Access
pub mod Token
mod Tests
