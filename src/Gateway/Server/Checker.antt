-- ===== src/Gateway/Server/Checker.antt =====
-- What a login does to the connections of the same user (n_ws_server.go, `registerClient` and
-- `multiTerminalLoginChecker`).
use open_im_server.Base.{
  ℕ, ◌==◌, ◌≡◌, ◌≢◌, refl, ap, ◌∙◌, ◌&&◌, Bool, true, false, not, Bytes, bytes_discrete, List, [],
  ◌∷◌, ◌++◌, map, Option, none, some, Map, contains-append_one, append_one-eq, keep-append,
  if◌then◌else◌, Error, arith, Bool-cases, inl, inr,
}
use mathlib.Core.Logic.{if_pos, if_neg}
use open_im_server.Gateway.Client.{Client}
use open_im_server.Gateway.UserMap
use open_im_server.Gateway.UserMap.{of_platform, without_addrs, get_found, get_all}
use open_im_server.Gateway.UserMap.Laws.{
  get_all-set, delete_clients-deletion, get_all-deletion, some_clients, present,
}
use open_im_server.Gateway.Server.{
  Env, Server, LoginPolicy, defalut_not_kick, pc_and_other, all_login_but_same_term_kick,
  other_policy, close, kick_online_message, kick_all, write_tokens, kick_same_terminal,
  check_policy, multi_terminal_login_checker, admit, register_client,
}

-- Whether the policy has a login close the user's connections of the same platform.
abbrev pub replaces_for : LoginPolicy → Env → Client → Bool
replaces_for defalut_not_kick env c = false
replaces_for pc_and_other env c = not (env.is_pc c.platform_id)
replaces_for all_login_but_same_term_kick env c = true
replaces_for (other_policy n) env c = false

abbrev pub replaces : Env → Client → Bool
replaces env c = replaces_for env.multi_login_policy env c

addrs : List Client → List Bytes
addrs = map (λ c. c.remote_addr)

-- Removing the addresses of a platform's clients leaves no client of the platform.
of_platform-without_addrs :
    (p : ℕ) (pre : List Bytes) (l : List Client)
    → of_platform p (without_addrs (pre ++ map (λ c. c.remote_addr) (of_platform p l)) l) ≡ []
unfolding of_platform without_addrs
of_platform-without_addrs p pre [] = refl
of_platform-without_addrs p pre (x ∷ l) = elim (Bool-cases (x.platform_id == p)) [
  | inl e ↦ ground (
    arith,
    contains-append_one bytes_discrete pre (map (λ c. c.remote_addr) (of_platform p l))
        x.remote_addr,
    append_one-eq pre (map (λ c. c.remote_addr) (of_platform p l)) x.remote_addr,
    of_platform-without_addrs p (pre ++ x.remote_addr ∷ []) l,
  )
  | inr e ↦ ground (arith, of_platform-without_addrs p pre l)
]

clients-kick_all : (cs : List Client) (s : Server) → (kick_all cs s).clients ≡ s.clients
unfolding kick_all kick_online_message close
clients-kick_all [] s = refl
clients-kick_all (c ∷ cs) s = ground (arith, clients-kick_all cs (close c s))

clients-write_tokens :
    (env : Env) (c : Client) (r : Option (Map Bytes ℕ) × Option Error) (s : Server)
    → (write_tokens env c r s).clients ≡ s.clients
unfolding write_tokens
clients-write_tokens env c (none, e) s = refl
clients-write_tokens env c (some m, none) s = refl
clients-write_tokens env c (some m, some e) s = ground arith

clients-kick_same_terminal :
    (env : Env) (ok : Bool) (olds : List Client) (c : Client) (s : Server)
    → (kick_same_terminal env ok olds c s).clients
      ≡ (if ok then (UserMap.delete_clients s.clients c.user_id olds).0 else s.clients)
unfolding kick_same_terminal
clients-kick_same_terminal env true olds c s =
    clients-write_tokens env c (env.get_tokens c.user_id c.platform_id) _
    ∙ clients-kick_all olds
        (record s { clients = (UserMap.delete_clients s.clients c.user_id olds).0 })
clients-kick_same_terminal env false olds c s = refl

clients-check_policy :
    (p : LoginPolicy) (env : Env) (ok : Bool) (olds : List Client) (c : Client) (s : Server)
    → (check_policy p env ok olds c s).clients ≡ (
        if replaces_for p env c && ok
        then (UserMap.delete_clients s.clients c.user_id olds).0
        else s.clients)
unfolding check_policy
clients-check_policy defalut_not_kick env ok olds c s = refl
clients-check_policy pc_and_other env ok olds c s =
    ground (arith, clients-kick_same_terminal env ok olds c s)
clients-check_policy all_login_but_same_term_kick env ok olds c s =
    clients-kick_same_terminal env ok olds c s
clients-check_policy (other_policy n) env ok olds c s = refl

-- The map after the checker: the old clients are gone if the policy has it and there are any.
pub clients-checker :
    (env : Env) (ok : Bool) (olds : List Client) (c : Client) (s : Server)
    → (multi_terminal_login_checker env ok olds c s).clients ≡ (
        if replaces env c && ok
        then (UserMap.delete_clients s.clients c.user_id olds).0
        else s.clients)
unfolding multi_terminal_login_checker
clients-checker env ok olds c s = clients-check_policy env.multi_login_policy env ok olds c s

-- The map after a login, with the checker's effect written out.
abbrev pub checked : Env → Client → UserMap.UserMap → List Client × Bool × Bool → UserMap.UserMap
checked env c u (olds, user_ok, ok) =
    if user_ok && (replaces env c && ok) then (UserMap.delete_clients u c.user_id olds).0 else u

clients-admit :
    (env : Env) (c : Client) (found : List Client × Bool × Bool) (s : Server)
    → (admit env c found s).clients ≡ UserMap.set (checked env c s.clients found) c.user_id c
unfolding admit
clients-admit env c (olds, false, ok) s = refl
clients-admit env c (olds, true, ok) s =
    ap (λ u. UserMap.set u c.user_id c) (clients-checker env ok olds c s)

pub clients-register_client :
    (env : Env) (c : Client) (s : Server)
    → (register_client env c s).clients
      ≡ UserMap.set
          (checked env c s.clients (UserMap.get s.clients c.user_id c.platform_id))
          c.user_id
          c
unfolding register_client
clients-register_client env c s =
    ground (arith, clients-admit env c (UserMap.get s.clients c.user_id c.platform_id) s)

get_found-append_one :
    (all : List Client) (v : Client)
    → get_found v.platform_id (some (all ++ v ∷ []))
      ≡ (of_platform v.platform_id all ++ v ∷ [], true, true)
unfolding get_found of_platform
get_found-append_one all v = ground (
  arith,
  keep-append (λ c. c.platform_id == v.platform_id) all (v ∷ []),
  append_one (of_platform v.platform_id all),
)
  where
    append_one : (l : List Client) → not (UserMap.is_empty (l ++ v ∷ [])) ≡ true
    append_one [] = refl
    append_one (x ∷ l) = refl

pub get-get_found :
    (u : UserMap.UserMap) (key : Bytes) (p : ℕ) → UserMap.get u key p ≡ get_found p (get_all u key)
unfolding UserMap.get get_all
get-get_found u key p = refl

get-set_own :
    (u : UserMap.UserMap) (key : Bytes) (v : Client)
    → UserMap.get (UserMap.set u key v) key v.platform_id
      ≡ (of_platform v.platform_id (some_clients (get_all u key)) ++ v ∷ [], true, true)
unfolding UserMap.get get_all
get-set_own u key v =
    rw (get_all-set u key key v, if_pos (bytes_discrete key key) refl)
      (get_found-append_one (some_clients (get_all u key)) v)

some_clients-present : (l : List Client) → some_clients (present l) ≡ l
some_clients-present [] = refl
some_clients-present (c ∷ l) = refl

-- After the deletion of the clients of a platform none is left.
of_platform-delete_clients :
    (p : ℕ) (u : UserMap.UserMap) (key : Bytes) (all : List Client)
    → get_all u key ≡ some all
    → of_platform p
        (some_clients (get_all (UserMap.delete_clients u key (of_platform p all)).0 key))
      ≡ []
of_platform-delete_clients p u key all e =
    rw
      (
        delete_clients-deletion u key (of_platform p all),
        get_all-deletion _ u key (get_all u key) key refl,
        if_pos (bytes_discrete key key) refl,
        e,
        some_clients-present _,
      )
      (of_platform-without_addrs p [] all)

is_empty-eq : (l : List Client) → UserMap.is_empty l ≡ true → l ≡ []
is_empty-eq [] e = refl
is_empty-eq (c ∷ l) e = cc

-- The clients of the login's platform that the checker leaves.
of_platform-checked :
    (env : Env) (c : Client) (u : UserMap.UserMap) (o : Option (List Client))
    → get_all u c.user_id ≡ o
    → of_platform c.platform_id
        (some_clients (get_all (checked env c u (get_found c.platform_id o)) c.user_id))
      ≡ (if replaces env c then [] else (get_found c.platform_id o).0)
unfolding get_found
of_platform-checked env c u none e = ground arith
of_platform-checked env c u (some all) e = ground (
  arith,
  of_platform-delete_clients c.platform_id u c.user_id all e,
  is_empty-eq (of_platform c.platform_id all),
)

-- After a login the user's connections of its platform are the new one alone, if the policy
-- replaces (the same terminal is kicked, and under `PCAndOther` the client is no PC), and the new
-- one behind those that were there, in their order, if it does not.
pub get-register_client :
    (env : Env) (c : Client) (s : Server)
    → UserMap.get (register_client env c s).clients c.user_id c.platform_id ≡ (
      (if replaces env c then [] else (UserMap.get s.clients c.user_id c.platform_id).0) ++ c ∷ [],
      true,
      true,
    )
get-register_client env c s = rw (
  clients-register_client env c s,
  get-set_own _ c.user_id c,
  get-get_found s.clients c.user_id c.platform_id,
  of_platform-checked env c s.clients (get_all s.clients c.user_id) refl,
)

get_all-checked_ne :
    (env : Env) (c : Client) (u : UserMap.UserMap) (found : List Client × Bool × Bool) (j : Bytes)
    → c.user_id ≢ j
    → get_all (checked env c u found) j ≡ get_all u j
get_all-checked_ne env c u (olds, user_ok, ok) j h = ground (
  arith,
  delete_clients-deletion u c.user_id olds,
  get_all-deletion (without_addrs (map (λ d. d.remote_addr) olds)) u c.user_id (get_all u c.user_id)
      j refl,
)

-- A login changes the connections of no other user.
get_all-register_client_ne :
    (env : Env) (c : Client) (s : Server) (j : Bytes)
    → c.user_id ≢ j
    → get_all (register_client env c s).clients j ≡ get_all s.clients j
get_all-register_client_ne env c s j h =
    rw
      (
        clients-register_client env c s,
        get_all-set _ c.user_id j c,
        if_neg (bytes_discrete c.user_id j) h,
      )
      (get_all-checked_ne env c s.clients _ j h)
