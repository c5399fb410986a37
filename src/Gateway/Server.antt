-- ===== src/Gateway/Server.antt =====
-- WsServer of internal/msggateway/n_ws_server.go, with the parts of client.go and hub_server.go
-- that change its state: logins, kicks, disconnections, and the loop of `Run` that handles them.
--
-- The three channels are queues without a bound (the code's hold 1000 entries, and a sender waits
-- while one is full). What a handler reads from a service is a field of `Env`; what it sends to one
-- is appended to a field of `Server`. Frames to the client, logs and metrics are left out.
pub mod Checker
pub mod Tokens
pub mod Sizes
pub mod Counts
pub mod Kicks
use open_im_server.Base.{
  ℕ, ◌==◌, ◌≡◌, Bool, true, false, not, ◌&&◌, Bytes, bytes_discrete, List, [], ◌∷◌, ◌++◌, Option,
  none, some, Map, contains, if◌then◌else◌, dec_true, Error, is_redis_nil,
}
use open_im_server.Base.Int.{ℤ, pos, ◌+ℤ◌, ◌-ℤ◌}
use open_im_server.Gateway.Client.{Client}
use open_im_server.Gateway.UserMap
use open_im_server.Gateway.UserMap.{UserMap}

-- `MultiLoginPolicy`: the three values that `multiTerminalLoginChecker` names, and the rest.
pub data LoginPolicy : Type 0 where
  defalut_not_kick pc_and_other all_login_but_same_term_kick : LoginPolicy
  other_policy : ℕ → LoginPolicy

pub data UserStatus : Type 0 where
  online offline : UserStatus

pub record KickHandler : Type 0 where
  pub client_ok : Bool
  pub old_clients : List Client
  pub new_client : Client

-- The configuration, and the answers of the services that the handlers call.
pub record Env : Type 0 where
  pub multi_login_policy : LoginPolicy
  pub discovery_is_zookeeper : Bool
  -- constant.PlatformIDToClass(id) == constant.TerminalPC
  pub is_pc : ℕ → Bool
  pub kicked_token : ℕ
  -- cache.GetTokensWithoutError: the map, nil or not, and the error
  pub get_tokens : Bytes → ℕ → Option (Map Bytes ℕ) × Option Error

pub record Server : Type 0 where
  pub clients : UserMap
  pub online_user_num : ℤ
  pub online_user_conn_num : ℤ
  pub register_chan : List Client
  pub unregister_chan : List Client
  pub kick_handler_chan : List KickHandler
  -- the addresses of the connections whose `closed` flag is set
  pub closed : List Bytes
  -- the calls of cache.SetTokenMapByUidPid
  pub token_writes : List (Bytes × ℕ × Map Bytes ℕ)
  -- the calls of SetUserOnlineStatus and of sendUserOnlineInfoToOtherNode
  pub statuses : List (Bytes × ℕ × UserStatus)
  pub announced : List Client

-- `(c *Client) close()`: nothing if it is closed already.
unfoldable pub close : Client → Server → Server
close c s = if contains bytes_discrete c.remote_addr s.closed then s else record s {
  closed = c.remote_addr ∷ s.closed;
  unregister_chan = s.unregister_chan ++ c ∷ [];
}

-- `KickOnlineMessage`: the frame, and then `close`.
unfoldable pub kick_online_message : Client → Server → Server
unfolding close
kick_online_message c s = close c s

unfoldable pub kick_all : List Client → Server → Server
unfolding kick_online_message
kick_all [] s = s
kick_all (c ∷ cs) s = kick_all cs (kick_online_message c s)

unfoldable pub kick_user_conn : Client → Server → Server
unfolding kick_online_message
kick_user_conn c s =
    kick_online_message c
      (record s { clients = (UserMap.delete_clients s.clients c.user_id (c ∷ [])).0 })

-- The loop over the token map: every token but the new connection's is marked as kicked.
unfoldable pub mark_kicked : ℕ → Bytes → Map Bytes ℕ → Map Bytes ℕ
mark_kicked kicked token [] = []
mark_kicked kicked token ((k, v) ∷ m) =
    (k, if dec_true (bytes_discrete k token) then v else kicked) ∷ mark_kicked kicked token m

-- The end of `multiTerminalLoginChecker`: nothing when the tokens cannot be read.
unfoldable pub write_tokens : Env → Client → Option (Map Bytes ℕ) × Option Error → Server → Server
unfolding mark_kicked
write_tokens env c (none, e) s = s
write_tokens env c (some m, none) s = record s {
  token_writes =
      s.token_writes ++ (c.user_id, c.platform_id, mark_kicked env.kicked_token c.token m) ∷ [];
}
write_tokens env c (some m, some e) s =
    if is_redis_nil e
    then record s {
      token_writes =
          s.token_writes ++ (c.user_id, c.platform_id, mark_kicked env.kicked_token c.token m) ∷ [];
    }
    else s

-- The case `AllLoginButSameTermKick`.
unfoldable pub kick_same_terminal : Env → Bool → List Client → Client → Server → Server
unfolding write_tokens kick_all
kick_same_terminal env client_ok old_clients c s =
    if client_ok
    then write_tokens env c (env.get_tokens c.user_id c.platform_id) (
        kick_all old_clients
          (record s { clients = (UserMap.delete_clients s.clients c.user_id old_clients).0 }))
    else s

-- `multiTerminalLoginChecker`, by the policy; `PCAndOther` falls through unless the client is a PC.
unfoldable pub check_policy : LoginPolicy → Env → Bool → List Client → Client → Server → Server
unfolding kick_same_terminal
check_policy defalut_not_kick env client_ok old_clients c s = s
check_policy pc_and_other env client_ok old_clients c s =
    if env.is_pc c.platform_id then s else kick_same_terminal env client_ok old_clients c s
check_policy all_login_but_same_term_kick env client_ok old_clients c s =
    kick_same_terminal env client_ok old_clients c s
check_policy (other_policy n) env client_ok old_clients c s = s

unfoldable pub multi_terminal_login_checker : Env → Bool → List Client → Client → Server → Server
unfolding check_policy
multi_terminal_login_checker env client_ok old_clients c s =
    check_policy env.multi_login_policy env client_ok old_clients c s

-- `SetUserOnlineStatus`, as the call that it makes.
abbrev pub set_status : Client → UserStatus → Server → Server
set_status c status s = record s {
  statuses = s.statuses ++ (c.user_id, c.platform_id, status) ∷ [];
}

abbrev pub announce : Env → Client → Server → Server
announce env c s =
    if env.discovery_is_zookeeper then record s { announced = s.announced ++ c ∷ [] } else s

-- `ws.clients.Set`, with one more connection.
abbrev pub add_conn : Client → Server → Server
add_conn c s = record s {
  clients = UserMap.set s.clients c.user_id c;
  online_user_conn_num = s.online_user_conn_num +ℤ pos 1;
}

unfoldable pub admit : Env → Client → List Client × Bool × Bool → Server → Server
unfolding multi_terminal_login_checker
admit env c (old_clients, false, client_ok) s =
    add_conn c (record s { online_user_num = s.online_user_num +ℤ pos 1 })
admit env c (old_clients, true, client_ok) s =
    add_conn c (multi_terminal_login_checker env client_ok old_clients c s)

unfoldable pub register_client : Env → Client → Server → Server
unfolding admit
register_client env c s =
    set_status c online
      (announce env c (admit env c (UserMap.get s.clients c.user_id c.platform_id) s))

unfoldable pub unregister_client : Client → Server → Server
unregister_client c s =
    let (clients, is_delete_user) = UserMap.delete_addr s.clients c.user_id c.remote_addr in
    set_status c offline (record s {
      clients = clients;
      online_user_num = if is_delete_user then s.online_user_num -ℤ pos 1 else s.online_user_num;
      online_user_conn_num = s.online_user_conn_num -ℤ pos 1;
    })

-- `KickUserOffline` of hub_server.go: every connection of each user on the platform.
unfoldable pub kick_conns : List Client → Server → Server
unfolding kick_user_conn
kick_conns [] s = s
kick_conns (c ∷ cs) s = kick_conns cs (kick_user_conn c s)

unfoldable pub kick_found : List Client × Bool × Bool → Server → Server
unfolding kick_conns
kick_found (cs, user_ok, false) s = s
kick_found (cs, user_ok, true) s = kick_conns cs s

unfoldable pub kick_user_offline : List Bytes → ℕ → Server → Server
unfolding kick_found
kick_user_offline [] platform_id s = s
kick_user_offline (v ∷ vs) platform_id s =
    kick_user_offline vs platform_id (kick_found (UserMap.get s.clients v platform_id) s)

-- `MultiTerminalLoginCheck` of hub_server.go: a login at another node. Its temporary client has an
-- empty address.
unfoldable pub login_check : List Client × Bool × Bool → Client → Server → Server
login_check (old_clients, false, client_ok) c s = s
login_check (old_clients, true, client_ok) c s = record s {
  kick_handler_chan =
      s.kick_handler_chan
      ++ record { client_ok = client_ok; old_clients = old_clients; new_client = c } ∷ [];
}

unfoldable pub multi_terminal_login_check : Bytes → ℕ → Bytes → Server → Server
unfolding login_check
multi_terminal_login_check user_id platform_id token s =
    login_check (UserMap.get s.clients user_id platform_id)
      (record {
        user_id = user_id;
        platform_id = platform_id;
        remote_addr = [];
        token = token;
        is_background = false;
        is_compress = false;
      })
      s

-- What can happen next: `select` in `Run` takes from any channel that has an entry, the other
-- steps come from the connections and from MultiTerminalLoginCheck, and do not write to the map.
-- KickUserOffline is no step: it writes to the map outside of the loop of `Run`, and what it has
-- loaded may be old when it is stored.
pub data Step (env : Env) : Server → Server → Type 0 where
  connect :
      (c : Client) (s : Server)
      → Step env s (record s { register_chan = s.register_chan ++ c ∷ [] })
  hang_up : (c : Client) (s : Server) → Step env s (close c s)
  on_register :
      (c : Client) (rest : List Client) (s : Server)
      → s.register_chan ≡ c ∷ rest
      → Step env s (register_client env c (record s { register_chan = rest }))
  on_unregister :
      (c : Client) (rest : List Client) (s : Server)
      → s.unregister_chan ≡ c ∷ rest
      → Step env s (unregister_client c (record s { unregister_chan = rest }))
  on_kick :
      (k : KickHandler) (rest : List KickHandler) (s : Server)
      → s.kick_handler_chan ≡ k ∷ rest
      → Step env s (
          multi_terminal_login_checker env k.client_ok k.old_clients k.new_client
            (record s { kick_handler_chan = rest }))
  check_login :
      (user_id : Bytes) (platform_id : ℕ) (token : Bytes) (s : Server)
      → Step env s (multi_terminal_login_check user_id platform_id token s)

pub data Reach (env : Env) (s : Server) : Server → Type 0 where
  here : Reach env s s
  next : {t u : Server} → Reach env s t → Step env t u → Reach env s u
