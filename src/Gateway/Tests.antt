-- ===== src/Gateway/Tests.antt =====
-- One user with one connection: logins, disconnections and kicks.
use open_im_server.Base.{
  List, ℕ, ◌+◌, ◌≡◌, refl, true, false, Bytes, bytes_discrete, ℕ_discrete, codes, [], ◌∷◌, ◌++◌,
  none, some, Map, lookup, insert, length, if◌then◌else◌, dec_true, err_token_invalid, ok, err,
  arith, ite,
}
use mathlib.Core.Option.{map as option_map}
use open_im_server.Base.Int.{ℤ, pos, ◌+ℤ◌, leb_ℤ}
use open_im_server.Auth.Token.{Claims, Services, ws_verify_token, parse_token, accept_status}
use open_im_server.Gateway.Client.{Client}
use open_im_server.Gateway.UserMap
use open_im_server.Gateway.UserMap.{
  get_all, get_found, set, delete_addr, delete_clients, of_platform, without_addr, without_addrs,
}
use open_im_server.Gateway.UserMap.Laws.{IsValid, set-IsValid, some_clients, present}
use open_im_server.Gateway.UserMap.Removal.{Without, delete_addr-Without}
use open_im_server.Gateway.Server.{
  all_login_but_same_term_kick, Env, Server, close, kick_user_conn, register_client,
  unregister_client, here, next, connect, on_register, hang_up,
}
use open_im_server.Gateway.Server.Checker.{replaces, get-register_client}
use open_im_server.Gateway.Server.Tokens.{register_client-kicks_tokens}
use open_im_server.Gateway.Server.Counts.{Bounded, Counted, Reach-Bounded}
use open_im_server.Gateway.Server.Kicks.{kick_user_conn-leaks, late_register-leaks}
use open_im_server.Gateway.Args.{WsRequest, Text, WsArgs, parse_ws_args, check_args, check_token}
use open_im_server.Gateway.Args.Laws.{parse_ws_args_ok}

abbrev user : Bytes
user = codes "u"

abbrev client : Bytes → Bytes → Client
client addr token = record {
  user_id = user;
  platform_id = 1;
  remote_addr = addr;
  token = token;
  is_background = false;
  is_compress = false;
}

abbrev old_client : Client
old_client = client (codes "a1") (codes "t1")

abbrev new_client : Client
new_client = client (codes "a2") (codes "t2")

abbrev users : UserMap.UserMap
users = set [] user old_client

abbrev server : UserMap.UserMap → ℤ → Server
server u n = record {
  clients = u;
  online_user_num = n;
  online_user_conn_num = n;
  register_chan = [];
  unregister_chan = [];
  kick_handler_chan = [];
  closed = [];
  token_writes = [];
  statuses = [];
  announced = [];
}

abbrev flags : Map Bytes ℕ
flags = (codes "t1", 0) ∷ (codes "t2", 0) ∷ []

abbrev env : Env
env = record {
  multi_login_policy = all_login_but_same_term_kick;
  discovery_is_zookeeper = true;
  is_pc = λ platform_id. false;
  kicked_token = 1;
  get_tokens = λ user_id platform_id. (some flags, none);
}

empty-IsValid : IsValid []
unfolding get_all lookup
empty-IsValid = record { distinct = tt; non_empty = λ key e. cc }

users-IsValid : IsValid users
users-IsValid = set-IsValid [] user old_client empty-IsValid

empty-Bounded : Bounded (server [] (pos 0))
empty-Bounded = record { valid = empty-IsValid; users = omega arith }

users-Counted : Counted (server users (pos 1))
unfolding set lookup insert
users-Counted = record { valid = users-IsValid; users = refl }

abbrev connected : Server
connected = record (server [] (pos 0)) { register_chan = old_client ∷ [] }

-- A connection is made, registered and closed.
Reach-Bounded_example :
    Bounded (close old_client (register_client env old_client (server [] (pos 0))))
Reach-Bounded_example = Reach-Bounded {env = env} {s = server [] (pos 0)} empty-Bounded (
    next
      (next (next here (connect old_client (server [] (pos 0))))
        (on_register old_client [] connected refl))
      (hang_up old_client (register_client env old_client (server [] (pos 0)))))

get-register_client_example :
    UserMap.get (register_client env new_client (server users (pos 1))).clients user 1 ≡ (
      (if replaces env new_client then [] else (UserMap.get users user 1).0) ++ new_client ∷ [],
      true,
      true,
    )
get-register_client_example = get-register_client env new_client (server users (pos 1))

register_client-kicks_tokens_example :
    (written : Map Bytes ℕ) × ((register_client env new_client (server users (pos 1))).token_writes
      ≡ [] ++ (user, 1, written) ∷ [])
    × ((k : Bytes)
        → lookup bytes_discrete k written
          ≡ ite
              (bytes_discrete k (codes "t2"))
              (lookup bytes_discrete k flags)
              (option_map (λ v. 1) (lookup bytes_discrete k flags)))
unfolding UserMap.get set lookup insert bytes_discrete ℕ_discrete
register_client-kicks_tokens_example =
    register_client-kicks_tokens env new_client (server users (pos 1)) flags refl refl refl refl

delete_addr_example :
    ((rest : List Client) × Without (codes "a1") (some_clients (get_all users user)) rest
      × (get_all (delete_addr users user (codes "a1")).0 user
          ≡ ite (bytes_discrete user user) (present rest) (get_all users user)))
    × (length (delete_addr users user (codes "a1")).0
          + (if (delete_addr users user (codes "a1")).1 then 1 else 0)
        ≡ length users)
delete_addr_example = delete_addr-Without users user (codes "a1") user users-IsValid

kick_user_conn-leaks_example :
    (get_all
        (unregister_client old_client (kick_user_conn old_client (server users (pos 1)))).clients
        user
      ≡ none)
    × (length
            (unregister_client old_client
              (kick_user_conn old_client (server users (pos 1)))).clients
          + 1
        ≡ length users)
    × ((unregister_client old_client
          (kick_user_conn old_client (server users (pos 1)))).online_user_num
        ≡ pos 1)
unfolding get_all set lookup insert bytes_discrete ℕ_discrete
kick_user_conn-leaks_example =
    kick_user_conn-leaks old_client (server users (pos 1)) users-IsValid refl

late_register-leaks_example :
    (get_all
        (register_client env old_client (unregister_client old_client (server [] (pos 0)))).clients
        user
      ≡ some (old_client ∷ []))
    × ((register_client env old_client
          (unregister_client old_client (server [] (pos 0)))).online_user_num
        ≡ pos 0 +ℤ pos 1)
    × ((unregister_client old_client (server [] (pos 0))).clients ≡ [])
unfolding get_all lookup
late_register-leaks_example = late_register-leaks env old_client (server [] (pos 0)) refl

abbrev claims : Claims
claims = record { user_id = user; platform_id = 1; expires_at = 7 }

abbrev services : Services
services = record {
  normal_token = 0;
  kicked_token = 1;
  get_claim = λ token secret.
      if dec_true (bytes_discrete token (codes "t1")) then ok claims else err err_token_invalid;
  sign = λ user_id platform_id expire secret. ok (codes "new");
  get_tokens = λ user_id platform_id. ok flags;
  delete_answer = ok tt;
  add_answer = ok tt;
  get_user_info = λ user_id. ok tt;
}

abbrev text : Text
text = record {
  parse_bool = λ s. false;
  atoi = λ s. some 1;
  gzip_compression_protocol = codes "gzip";
}

abbrev request : WsRequest
request = record {
  msg_resp = [];
  token = codes "t1";
  user_id = user;
  platform_id = codes "1";
  compression = codes "gzip";
  header_compression = [];
}

abbrev args : WsArgs
args = record {
  token = codes "t1";
  user_id = user;
  platform_id = 1;
  compression = true;
  msg_resp = false;
}

parse_ws_args_ok_example :
    (found : Claims) × (parse_token services (codes "s") (codes "t1") ≡ ok found)
    × (found.user_id ≡ user)
    × (found.platform_id ≡ 1)
    × (user ≡ user)
    × (leb_ℤ (pos 10) (pos 3) ≡ false)
unfolding parse_ws_args check_args check_token ws_verify_token accept_status lookup bytes_discrete
    ℕ_discrete
parse_ws_args_ok_example =
    parse_ws_args_ok services text (codes "s") (pos 3) (pos 10) request {args = args} refl
