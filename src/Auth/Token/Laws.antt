-- ===== src/Auth/Token/Laws.antt =====
-- Which tokens the auth service accepts (internal/rpc/auth/auth.go), and who may ask for one.
use open_im_server.Base.{
  ℕ, ◌≡◌, ◌≢◌, ◌*◌, ◌↔◌, refl, true, false, Bytes, bytes_discrete, List, [], ◌∷◌, Option, none,
  some, Map, lookup, err_no_permission, err_token_kicked, Result, ok, err, arith, >>=-eq-ok, ap,
  sym, ◌∙◌,
}
use open_im_server.Auth.Access.{Config, check_admin, is_manager_user_id, is_app_manager_uid}
use open_im_server.Auth.Token.{
  Services, Claims, TokenOp, UserTokenResp, accept_status, accept_in, parse_token, get_user_token,
  get_user_token_checks, guarded, with_expiry, create_token,
}

pub accept_status-ok :
    (sv : Services) (o : Option ℕ) → (accept_status sv o ≡ ok tt) ↔ (o ≡ some sv.normal_token)
unfolding accept_status
accept_status-ok sv none = ground arith
accept_status-ok sv (some v) = ground arith

accept_in-ok :
    (sv : Services) (token : Bytes) (m : Map Bytes ℕ)
    → (accept_in sv token m ≡ ok tt) ↔ (lookup bytes_discrete token m ≡ some sv.normal_token)
unfolding accept_in
accept_in-ok sv token [] = (λ h. cc, λ h. unfold lookup in (cc h))
accept_in-ok sv token (e ∷ m) = accept_status-ok sv (lookup bytes_discrete token (e ∷ m))

parse_token_inv :
    (sv : Services) (secret token : Bytes) (claims : Claims)
    → parse_token sv secret token ≡ ok claims
    → (sv.get_claim token secret ≡ ok claims)
      × ((m : Map Bytes ℕ) × (sv.get_tokens claims.user_id claims.platform_id ≡ ok m)
          × (lookup bytes_discrete token m ≡ some sv.normal_token))
unfolding parse_token
parse_token_inv sv secret token claims h =
    let (c, verified, rest) = >>=-eq-ok (sv.get_claim token secret) _ h in
    let (m, read, rest') = >>=-eq-ok (sv.get_tokens c.user_id c.platform_id) _ rest in
    let (u, accepted, same) = >>=-eq-ok (accept_in sv token m) _ rest' in
    let e : c ≡ claims = cc same in
    (
      verified ∙ ap ok e,
      (
        m,
        ap (λ (d : Claims). sv.get_tokens d.user_id d.platform_id) (sym e) ∙ read,
        (accept_in-ok sv token m).0 accepted,
      ),
    )

-- `parseToken` returns claims exactly when the token verifies to them and the cache holds the
-- token for their user and platform with the normal status.
pub parse_token_iff :
    (sv : Services) (secret token : Bytes) (claims : Claims)
    → (parse_token sv secret token ≡ ok claims) ↔ (
        (sv.get_claim token secret ≡ ok claims)
        × ((m : Map Bytes ℕ) × (sv.get_tokens claims.user_id claims.platform_id ≡ ok m)
            × (lookup bytes_discrete token m ≡ some sv.normal_token)))
unfolding parse_token
parse_token_iff sv secret token claims = (
  parse_token_inv sv secret token claims,
  λ h. rw (h.0, h.1.1, (accept_in-ok sv token h.1.0).1 h.1.2),
)

accept_in-accept_status :
    (sv : Services) (token : Bytes) (m : Map Bytes ℕ)
    → accept_in sv token m ≡ accept_status sv (lookup bytes_discrete token m)
unfolding accept_in
accept_in-accept_status sv token [] = unfold lookup accept_status in refl
accept_in-accept_status sv token (e ∷ m) = refl

-- A token that verifies and that the cache holds as kicked is refused as kicked.
parse_token_kicked :
    (sv : Services) (secret token : Bytes) (claims : Claims) (m : Map Bytes ℕ)
    → sv.normal_token ≢ sv.kicked_token
    → sv.get_claim token secret ≡ ok claims
    → sv.get_tokens claims.user_id claims.platform_id ≡ ok m
    → lookup bytes_discrete token m ≡ some sv.kicked_token
    → parse_token sv secret token ≡ err err_token_kicked
unfolding parse_token accept_status
parse_token_kicked sv secret token claims m ne e r h =
    rw (e, r, accept_in-accept_status sv token m, h) (ground arith)

guarded-ok {ℓ} :
    {A : Type ℓ} (g : Result (Unit {0})) (k : List TokenOp × Result A) {r : A}
    → (guarded g k).1 ≡ ok r
    → (g ≡ ok tt) × (guarded g k ≡ k)
guarded-ok (ok u) k h = (refl, refl)
guarded-ok (err e) k h = cc

get_user_token_checks-ok :
    (sv : Services) (config : Config) (op_user_id user_id : Bytes)
    → get_user_token_checks sv config op_user_id user_id ≡ ok tt
    → (is_app_manager_uid config op_user_id ≡ true)
      × (is_manager_user_id config user_id ≡ false)
      × (sv.get_user_info user_id ≡ ok tt)
unfolding get_user_token_checks check_admin is_app_manager_uid
get_user_token_checks-ok sv config op_user_id user_id h = ground arith

with_expiry-ok :
    (expire : ℕ) (c : List TokenOp × Result Bytes) {r : UserTokenResp}
    → (with_expiry expire c).1 ≡ ok r
    → r.expire_time_seconds ≡ expire * 24 * 60 * 60
with_expiry-ok expire (ops, ok token) h = ground arith
with_expiry-ok expire (ops, err e) h = cc

-- `GetUserToken` returns a token only to an admin, only for a user that is none and whose user
-- information can be read; it lives as long as the configuration says.
get_user_token_ok :
    (sv : Services) (config : Config) (expire : ℕ) (op_user_id user_id : Bytes) (platform_id : ℕ)
    {r : UserTokenResp}
    → (get_user_token sv config expire op_user_id user_id platform_id).1 ≡ ok r
    → (is_app_manager_uid config op_user_id ≡ true)
      × (is_manager_user_id config user_id ≡ false)
      × (sv.get_user_info user_id ≡ ok tt)
      × (r.expire_time_seconds ≡ expire * 24 * 60 * 60)
unfolding get_user_token
get_user_token_ok sv config expire op_user_id user_id platform_id h =
    let created = create_token sv config.secret config.secret expire user_id platform_id in
    let (passed, same) =
      guarded-ok (get_user_token_checks sv config op_user_id user_id) (with_expiry expire created)
        h in
    let (admin, other, known) = get_user_token_checks-ok sv config op_user_id user_id passed in
    (
      admin,
      other,
      known,
      with_expiry-ok expire created
          (sym (ap (λ (k : List TokenOp × Result UserTokenResp). k.1) same) ∙ h),
    )

-- The token of an admin is refused to everybody, and redis is left alone.
get_user_token_admin :
    (sv : Services) (config : Config) (expire : ℕ) (op_user_id user_id : Bytes) (platform_id : ℕ)
    → is_manager_user_id config user_id ≡ true
    → get_user_token sv config expire op_user_id user_id platform_id ≡ ([], err err_no_permission)
unfolding get_user_token check_admin
get_user_token_admin sv config expire op_user_id user_id platform_id h = ground arith
