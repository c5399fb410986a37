-- ===== src/Gateway/Args.antt =====
-- The arguments of a new websocket connection (n_ws_server.go, `ParseWSArgs`).
pub mod Laws
use open_im_server.Base.{
  ℕ, ◌==◌, Bool, true, false, not, ◌||◌, Bytes, bytes_discrete, List, [], ◌∷◌, Option, none, some,
  Map, lookup, dec_true, if◌then◌else◌, Error, err_conn_over_max_num_limit, err_conn_args, Result,
  ok, err, ◌>>=◌, ◌>>◌, require,
}
use open_im_server.Base.Int.{ℤ, leb_ℤ}
use open_im_server.Auth.Token.{Services, ws_verify_token, accept_status}

-- The values of the query, and of the header, that the function reads; a missing one is empty.
pub record WsRequest : Type 0 where
  pub msg_resp : Bytes
  pub token : Bytes
  pub user_id : Bytes
  pub platform_id : Bytes
  pub compression : Bytes
  pub header_compression : Bytes

-- The standard library's strconv.ParseBool (its value, false on an error) and strconv.Atoi, and the
-- constant GzipCompressionProtocol.
pub record Text : Type 0 where
  pub parse_bool : Bytes → Bool
  pub atoi : Bytes → Option ℕ
  pub gzip_compression_protocol : Bytes

pub record WsArgs : Type 0 where
  pub token : Bytes
  pub user_id : Bytes
  pub platform_id : ℕ
  pub compression : Bool
  pub msg_resp : Bool

abbrev pub is_nil {ℓ} : {A : Type ℓ} → List A → Bool
is_nil [] = true
is_nil (x ∷ xs) = false

abbrev pub or_fail {ℓ} : {A : Type ℓ} → Option A → Error → Result A
or_fail none e = err e
or_fail (some a) e = ok a

-- The checks before the platform is read.
unfoldable pub check_args : ℤ → ℤ → WsRequest → Result (Unit {0})
check_args online_user_conn_num ws_max_conn_num r = do
  require (not (leb_ℤ ws_max_conn_num online_user_conn_num)) err_conn_over_max_num_limit
  require (not (is_nil r.token)) err_conn_args
  require (not (is_nil r.user_id)) err_conn_args
  require (not (is_nil r.platform_id)) err_conn_args

-- The token: its claims, and its status in the cache.
unfoldable pub check_token : Services → Bytes → WsRequest → ℕ → Result (Unit {0})
check_token sv secret r platform_id = do
  ws_verify_token sv r.token r.user_id secret platform_id
  m ← sv.get_tokens r.user_id platform_id
  accept_status sv (lookup bytes_discrete r.token m)

abbrev pub args_of : Text → WsRequest → ℕ → WsArgs
args_of text r platform_id = record {
  token = r.token;
  user_id = r.user_id;
  platform_id = platform_id;
  compression =
      dec_true (bytes_discrete r.compression text.gzip_compression_protocol)
      || dec_true (bytes_discrete r.header_compression text.gzip_compression_protocol);
  msg_resp = text.parse_bool r.msg_resp;
}

unfoldable pub parse_ws_args : Services → Text → Bytes → ℤ → ℤ → WsRequest → Result WsArgs
unfolding check_args check_token
parse_ws_args sv text secret online_user_conn_num ws_max_conn_num r = do
  check_args online_user_conn_num ws_max_conn_num r
  platform_id ← or_fail (text.atoi r.platform_id) err_conn_args
  check_token sv secret r platform_id
  ok (args_of text r platform_id)
