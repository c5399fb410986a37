-- ===== src/Auth/Token.antt =====
-- Tokens: `WsVerifyToken` of pkg/authverify/token.go, `CreateToken` of
-- pkg/common/db/controller/auth.go, and the auth service of internal/rpc/auth/auth.go.
-- JSON web tokens and redis are services: what they answer is a field of `Services`, what is sent to
-- redis is a list of `TokenOp`, in order.
pub mod Laws
pub mod Stale
use open_im_server.Base.{
  ℕ, ◌==◌, ◌*◌, Bool, true, false, not, ◌||◌, Bytes, bytes_discrete, List, [], ◌∷◌, ◌++◌, Option,
  none, some, Map, lookup, dec_true, if◌then◌else◌, Error, err_no_permission, err_token_invalid,
  err_token_kicked, err_token_unknown, err_token_not_exist, Result, ok, err, ◌>>=◌, ◌>>◌, require,
}
use open_im_server.Auth.Access.{Config, check_admin, is_manager_user_id}

-- tokenverify.Claims
pub record Claims : Type 0 where
  pub user_id : Bytes
  pub platform_id : ℕ
  pub expires_at : ℕ

pub data TokenOp : Type 0 where
  delete_tokens : Bytes → ℕ → List Bytes → TokenOp
  add_flag : Bytes → ℕ → Bytes → ℕ → TokenOp

pub record Services : Type 0 where
  -- constant.NormalToken and constant.KickedToken
  pub normal_token : ℕ
  pub kicked_token : ℕ
  -- tokenverify.GetClaimFromToken, with the token and the secret
  pub get_claim : Bytes → Bytes → Result Claims
  -- BuildClaims and SignedString, with the user, the platform, the life and the secret
  pub sign : Bytes → ℕ → ℕ → Bytes → Result Bytes
  -- the cache's GetTokensWithoutError, DeleteTokenByUidPid and AddTokenFlag
  pub get_tokens : Bytes → ℕ → Result (Map Bytes ℕ)
  pub delete_answer : Result (Unit {0})
  pub add_answer : Result (Unit {0})
  -- userRpcClient.GetUserInfo
  pub get_user_info : Bytes → Result (Unit {0})

unfoldable pub ws_verify_token : Services → Bytes → Bytes → Bytes → ℕ → Result (Unit {0})
ws_verify_token sv token user_id secret platform_id = do
  claim ← sv.get_claim token secret
  require (dec_true (bytes_discrete claim.user_id user_id)) err_token_invalid
  require (claim.platform_id == platform_id) err_token_invalid

-- The loop of `CreateToken`: the tokens that do not verify or are not normal.
abbrev pub is_err {ℓ} : {A : Type ℓ} → Result A → Bool
is_err (ok a) = false
is_err (err e) = true

unfoldable pub delete_token_key : Services → Bytes → Map Bytes ℕ → List Bytes
delete_token_key sv secret [] = []
delete_token_key sv secret ((k, v) ∷ m) =
    if is_err (sv.get_claim k secret) || not (v == sv.normal_token)
    then k ∷ delete_token_key sv secret m
    else delete_token_key sv secret m

-- The deletion, made only when there is something to delete.
abbrev pub delete_stale : Services → List Bytes → Result (Unit {0})
delete_stale sv [] = ok tt
delete_stale sv (k ∷ ks) = sv.delete_answer

abbrev pub stale_ops : Bytes → ℕ → List Bytes → List TokenOp
stale_ops user_id platform_id [] = []
stale_ops user_id platform_id (k ∷ ks) = delete_tokens user_id platform_id (k ∷ ks) ∷ []

-- The end of `CreateToken`: the signature, and the flag of the new token.
unfoldable pub issue :
    Services → Bytes → ℕ → List TokenOp → Result Bytes → List TokenOp × Result Bytes
issue sv user_id platform_id ops (err e) = (ops, err e)
issue sv user_id platform_id ops (ok token) =
    (ops ++ add_flag user_id platform_id token sv.normal_token ∷ [], sv.add_answer >> ok token)

-- `access_secret` signs; the tokens that are there are verified with the configuration's secret.
unfoldable pub delete_and_issue :
    Services → Bytes → ℕ → Bytes → ℕ → List Bytes → List TokenOp × Result Bytes
unfolding issue
delete_and_issue sv access_secret access_expire user_id platform_id stale =
    elim (delete_stale sv stale) [
      | ok u ↦
          issue sv user_id platform_id (stale_ops user_id platform_id stale)
            (sv.sign user_id platform_id access_expire access_secret)
      | err e ↦ (stale_ops user_id platform_id stale, err e)
    ]

unfoldable pub create_token : Services → Bytes → Bytes → ℕ → Bytes → ℕ → List TokenOp × Result Bytes
unfolding delete_token_key delete_and_issue
create_token sv secret access_secret access_expire user_id platform_id =
    elim (sv.get_tokens user_id platform_id) [
      | err e ↦ ([], err e)
      | ok tokens ↦
          delete_and_issue sv access_secret access_expire user_id platform_id
            (delete_token_key sv secret tokens)
    ]

-- The status of a token that stands in the map, by the `switch` of `parseToken`.
unfoldable pub accept_status : Services → Option ℕ → Result (Unit {0})
accept_status sv none = err err_token_not_exist
accept_status sv (some v) =
    if v == sv.normal_token
    then ok tt
    else if v == sv.kicked_token
    then err err_token_kicked
    else err err_token_unknown

unfoldable pub accept_in : Services → Bytes → Map Bytes ℕ → Result (Unit {0})
unfolding accept_status
accept_in sv token [] = err err_token_not_exist
accept_in sv token (e ∷ m) = accept_status sv (lookup bytes_discrete token (e ∷ m))

unfoldable pub parse_token : Services → Bytes → Bytes → Result Claims
unfolding accept_in
parse_token sv secret token = do
  claims ← sv.get_claim token secret
  m ← sv.get_tokens claims.user_id claims.platform_id
  accept_in sv token m
  ok claims

-- pbauth.UserTokenResp and pbauth.GetUserTokenResp
pub record UserTokenResp : Type 0 where
  pub token : Bytes
  pub expire_time_seconds : ℕ

abbrev pub with_expiry : ℕ → List TokenOp × Result Bytes → List TokenOp × Result UserTokenResp
with_expiry expire (ops, r) =
    (ops, do token ← r; ok (record { token = token; expire_time_seconds = expire * 24 * 60 * 60 }))

-- An early return before `CreateToken` leaves redis alone.
abbrev pub guarded {ℓ} :
    {A : Type ℓ} → Result (Unit {0}) → List TokenOp × Result A → List TokenOp × Result A
guarded (err e) k = ([], err e)
guarded (ok u) k = k

-- `UserToken`: the caller knows the secret. The server signs with `config.Secret`.
unfoldable pub user_token :
    Services → Config → ℕ → Bytes → Bytes → ℕ → List TokenOp × Result UserTokenResp
unfolding create_token
user_token sv config expire secret user_id platform_id =
    guarded
      (do
        require (dec_true (bytes_discrete secret config.secret)) err_no_permission
        sv.get_user_info user_id)
      (with_expiry expire (create_token sv config.secret config.secret expire user_id platform_id))

-- The checks of `GetUserToken`: an admin asks, for a user that is none.
unfoldable pub get_user_token_checks : Services → Config → Bytes → Bytes → Result (Unit {0})
get_user_token_checks sv config op_user_id user_id = do
  check_admin config op_user_id
  require (not (is_manager_user_id config user_id)) err_no_permission
  sv.get_user_info user_id

unfoldable pub get_user_token :
    Services → Config → ℕ → Bytes → Bytes → ℕ → List TokenOp × Result UserTokenResp
unfolding create_token get_user_token_checks
get_user_token sv config expire op_user_id user_id platform_id =
    guarded (get_user_token_checks sv config op_user_id user_id)
      (with_expiry expire (create_token sv config.secret config.secret expire user_id platform_id))
