-- ===== src/Group.antt =====
-- The group service: internal/rpc/group, its database of pkg/common/db/controller/group.go and the
-- collections of pkg/common/db/mgo.
pub mod Driver
pub mod Model
pub mod Rows
pub mod Db
pub mod Valid
pub mod Rooted
pub mod Outcome
pub mod People
pub mod Leave
pub mod Join
pub mod Invite
pub mod Answer
pub mod Rule
pub mod Edit
pub mod Create
pub mod Info
pub mod Calls
pub mod Memory
pub mod Sample
mod Tests
