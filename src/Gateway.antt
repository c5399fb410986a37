-- ===== src/Gateway.antt =====
-- The websocket gateway (internal/msggateway): connections, the user map, logins and kicks.
pub mod Client
pub mod UserMap
pub mod Server
pub mod Args
mod Tests
