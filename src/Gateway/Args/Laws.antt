-- ===== src/Gateway/Args/Laws.antt =====
-- When the gateway accepts a connection (n_ws_server.go, `ParseWSArgs`).
use open_im_server.Base.{ℕ, ◌≡◌, false, Bytes, err_conn_args, ok, >>=-eq-ok, arith}
use open_im_server.Base.Int.{ℤ, leb_ℤ}
use open_im_server.Auth.Token.{Services, Claims, ws_verify_token, parse_token}
use open_im_server.Auth.Token.Laws.{parse_token_iff, accept_status-ok}
use open_im_server.Gateway.Args.{
  WsRequest, Text, WsArgs, or_fail, check_args, check_token, args_of, parse_ws_args,
}

ws_verify_token_inv :
    (sv : Services) (token user_id secret : Bytes) (platform_id : ℕ)
    → ws_verify_token sv token user_id secret platform_id ≡ ok tt
    → (claims : Claims) × (sv.get_claim token secret ≡ ok claims)
      × (claims.user_id ≡ user_id)
      × (claims.platform_id ≡ platform_id)
unfolding ws_verify_token
ws_verify_token_inv sv token user_id secret platform_id h =
    let (claims, e, rest) = >>=-eq-ok (sv.get_claim token secret) _ h in
    (claims, e, ground arith, ground arith)

-- The gateway's check of a token is the auth service's, and that the claims are the connection's.
check_token_inv :
    (sv : Services) (secret : Bytes) (r : WsRequest) (platform_id : ℕ)
    → check_token sv secret r platform_id ≡ ok tt
    → (claims : Claims) × (parse_token sv secret r.token ≡ ok claims)
      × (claims.user_id ≡ r.user_id)
      × (claims.platform_id ≡ platform_id)
unfolding check_token
check_token_inv sv secret r p h =
    let (u, verified, rest) = >>=-eq-ok (ws_verify_token sv r.token r.user_id secret p) _ h in
    let (m, read, accepted) = >>=-eq-ok (sv.get_tokens r.user_id p) _ rest in
    let (claims, e, user, platform) = ws_verify_token_inv sv r.token r.user_id secret p verified in
    (
      claims,
      (parse_token_iff sv secret r.token claims).1
          (e, (m, rw (user, platform) read, (accept_status-ok sv _).0 accepted)),
      user,
      platform,
    )

check_args_inv :
    (conns max_conns : ℤ) (r : WsRequest)
    → check_args conns max_conns r ≡ ok tt
    → leb_ℤ max_conns conns ≡ false
unfolding check_args
check_args_inv conns max_conns r h = ground arith

-- A connection that the gateway accepts is within the limit, and has a token that the auth service
-- accepts too, whose claims are the user and the platform that the connection names.
pub parse_ws_args_ok :
    (sv : Services) (text : Text) (secret : Bytes) (conns max_conns : ℤ) (r : WsRequest)
    {args : WsArgs}
    → parse_ws_args sv text secret conns max_conns r ≡ ok args
    → (claims : Claims) × (parse_token sv secret args.token ≡ ok claims)
      × (claims.user_id ≡ args.user_id)
      × (claims.platform_id ≡ args.platform_id)
      × (args.user_id ≡ r.user_id)
      × (leb_ℤ max_conns conns ≡ false)
unfolding parse_ws_args
parse_ws_args_ok sv text secret conns max_conns r {args} h =
    let (u, within, rest) = >>=-eq-ok (check_args conns max_conns r) _ h in
    let (p, read, rest') = >>=-eq-ok (or_fail (text.atoi r.platform_id) err_conn_args) _ rest in
    let (u', checked, same) = >>=-eq-ok (check_token sv secret r p) _ rest' in
    finish p (check_token_inv sv secret r p checked) (check_args_inv conns max_conns r within) same
  where
    finish :
        (p : ℕ)
        → (claims : Claims) × (parse_token sv secret r.token ≡ ok claims)
          × (claims.user_id ≡ r.user_id)
          × (claims.platform_id ≡ p)
        → leb_ℤ max_conns conns ≡ false
        → ok (args_of text r p) ≡ ok args
        → (claims : Claims) × (parse_token sv secret args.token ≡ ok claims)
          × (claims.user_id ≡ args.user_id)
          × (claims.platform_id ≡ args.platform_id)
          × (args.user_id ≡ r.user_id)
          × (leb_ℤ max_conns conns ≡ false)
    finish p (claims, parsed, user, platform) within same =
        (claims, ground arith, ground arith, ground arith, ground arith, within)
