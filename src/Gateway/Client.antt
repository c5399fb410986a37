-- ===== src/Gateway/Client.antt =====
-- A connection of the gateway (internal/msggateway/client.go), as far as the server's state
-- depends on it. A connection is told apart by its remote address, as the user map does.
use open_im_server.Base.{ℕ, Bool, Bytes}

pub record Client : Type 0 where
  pub user_id : Bytes
  pub platform_id : ℕ
  pub remote_addr : Bytes
  pub token : Bytes
  pub is_background : Bool
  pub is_compress : Bool
