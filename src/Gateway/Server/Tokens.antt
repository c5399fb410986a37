-- ===== src/Gateway/Server/Tokens.antt =====
-- What a login does to the token map of its user and platform (n_ws_server.go).
use open_im_server.Base.{
  ℕ, ◌≡◌, refl, Bool, true, false, Bytes, bytes_discrete, List, [], ◌∷◌, ◌++◌, none, some, Map,
  arith, lookup, ite,
}
use mathlib.Core.Option
use open_im_server.Gateway.Client.{Client}
use open_im_server.Gateway.UserMap
use open_im_server.Gateway.UserMap.{of_platform, without_addrs, get_found, get_all}
use open_im_server.Gateway.Server.{
  Env, Server, LoginPolicy, defalut_not_kick, pc_and_other, all_login_but_same_term_kick,
  other_policy, close, kick_online_message, kick_all, check_policy, multi_terminal_login_checker,
  admit, register_client, mark_kicked,
}
use open_im_server.Gateway.Server.Checker.{replaces_for, replaces}

-- What `mark_kicked` writes: the tokens stay the same, the one that is kept has its status, and
-- every other one is kicked.
lookup-mark_kicked :
    (kicked : ℕ) (token k : Bytes) (m : Map Bytes ℕ)
    → lookup bytes_discrete k (mark_kicked kicked token m)
      ≡ ite
          (bytes_discrete k token)
          (lookup bytes_discrete k m)
          (Option.map (λ v. kicked) (lookup bytes_discrete k m))
unfolding lookup mark_kicked
lookup-mark_kicked kicked token k [] = ground arith
lookup-mark_kicked kicked token k ((j, v) ∷ m) = ground (arith, lookup-mark_kicked kicked token k m)

token_writes-kick_all :
    (cs : List Client) (s : Server) → (kick_all cs s).token_writes ≡ s.token_writes
unfolding kick_all kick_online_message close
token_writes-kick_all [] s = refl
token_writes-kick_all (c ∷ cs) s = ground (arith, token_writes-kick_all cs (close c s))

token_writes-check_policy :
    (p : LoginPolicy) (env : Env) (olds : List Client) (c : Client) (s : Server) (m : Map Bytes ℕ)
    → replaces_for p env c ≡ true
    → env.get_tokens c.user_id c.platform_id ≡ (some m, none)
    → (check_policy p env true olds c s).token_writes
      ≡ s.token_writes ++ (c.user_id, c.platform_id, mark_kicked env.kicked_token c.token m) ∷ []
unfolding check_policy
token_writes-check_policy defalut_not_kick env olds c s m r e = cc
token_writes-check_policy pc_and_other env olds c s m r e = ground (
  arith,
  token_writes-kick_all olds
      (record s { clients = (UserMap.delete_clients s.clients c.user_id olds).0 }),
)
token_writes-check_policy all_login_but_same_term_kick env olds c s m r e = ground (
  arith,
  token_writes-kick_all olds
      (record s { clients = (UserMap.delete_clients s.clients c.user_id olds).0 }),
)
token_writes-check_policy (other_policy n) env olds c s m r e = cc

token_writes-admit :
    (env : Env) (c : Client) (found : List Client × Bool × Bool) (s : Server) (m : Map Bytes ℕ)
    → found.1 ≡ true
    → found.2 ≡ true
    → replaces env c ≡ true
    → env.get_tokens c.user_id c.platform_id ≡ (some m, none)
    → (admit env c found s).token_writes
      ≡ s.token_writes ++ (c.user_id, c.platform_id, mark_kicked env.kicked_token c.token m) ∷ []
unfolding admit multi_terminal_login_checker
token_writes-admit env c (olds, false, ok) s m u k r e = cc
token_writes-admit env c (olds, true, false) s m u k r e = cc
token_writes-admit env c (olds, true, true) s m u k r e =
    token_writes-check_policy env.multi_login_policy env olds c s m r e

-- When a login replaces connections that are there and the token map can be read, one map is
-- written back for that user and platform. It has the same tokens; the new connection's keeps its
-- status, and every other one is marked as kicked.
pub register_client-kicks_tokens :
    (env : Env) (c : Client) (s : Server) (m : Map Bytes ℕ)
    → replaces env c ≡ true
    → (UserMap.get s.clients c.user_id c.platform_id).1 ≡ true
    → (UserMap.get s.clients c.user_id c.platform_id).2 ≡ true
    → env.get_tokens c.user_id c.platform_id ≡ (some m, none)
    → (written : Map Bytes ℕ) × ((register_client env c s).token_writes
        ≡ s.token_writes ++ (c.user_id, c.platform_id, written) ∷ [])
      × ((k : Bytes)
          → lookup bytes_discrete k written
            ≡ ite
                (bytes_discrete k c.token)
                (lookup bytes_discrete k m)
                (Option.map (λ v. env.kicked_token) (lookup bytes_discrete k m)))
unfolding register_client
register_client-kicks_tokens env c s m r u k e = (
  mark_kicked env.kicked_token c.token m,
  ground
      (arith, token_writes-admit env c (UserMap.get s.clients c.user_id c.platform_id) s m u k r e),
  λ k'. lookup-mark_kicked env.kicked_token c.token k' m,
)
