-- ===== src/Gateway/Server/Sizes.antt =====
-- How a login changes the number of users in the map, and the counter `onlineUserNum` (n_ws_server.go).
use open_im_server.Base.{
  ℕ, ◌+◌, ◌≡◌, refl, ◌∙◌, Bool, true, false, ◌&&◌, Bytes, bytes_discrete, List, [], ◌∷◌, map,
  Option, none, some, Map, length, length-delete, length-insert_old, if◌then◌else◌, Error, arith,
  Bool-cases, inl, inr, insert, delete,
}
use open_im_server.Base.Int.{pos, ◌+ℤ◌}
use mathlib.Core.Logic.{if_pos}
use open_im_server.Gateway.Client.{Client}
use open_im_server.Gateway.UserMap
use open_im_server.Gateway.UserMap.{get_all, get_found, store_rest, without_addr, without_addrs}
use open_im_server.Gateway.UserMap.Laws.{
  IsValid, delete_clients-IsValid, length-set_new, length-set_old, deletion, get_all-store_rest,
  delete_clients-deletion,
}
use open_im_server.Gateway.Server.{
  Env, Server, LoginPolicy, defalut_not_kick, pc_and_other, all_login_but_same_term_kick,
  other_policy, close, kick_online_message, kick_all, write_tokens, kick_same_terminal,
  check_policy, multi_terminal_login_checker, admit, register_client,
}
use open_im_server.Gateway.Server.Checker.{
  replaces, checked, clients-register_client, get-get_found,
}

-- To replace a user's list by what a deletion leaves and then add a connection keeps the number of
-- users.
length-set-store_rest :
    (u : UserMap.UserMap) (key : Bytes) (l rest : List Client) (v : Client)
    → IsValid u
    → get_all u key ≡ some l
    → length (UserMap.set (store_rest u key rest).0 key v) ≡ length u
unfolding store_rest
length-set-store_rest u key l [] v h e =
    length-set_new (delete bytes_discrete key u) key v
      (get_all-store_rest (λ x. x) u key [] key ∙ if_pos (bytes_discrete key key) refl _ _)
    ∙ unfold get_all in length-delete bytes_discrete key u l h.distinct e
length-set-store_rest u key l (c ∷ rest) v h e =
    length-set_old (insert bytes_discrete key (c ∷ rest) u) key v
      (get_all-store_rest (λ x. x) u key (c ∷ rest) key ∙ if_pos (bytes_discrete key key) refl _ _)
    ∙ unfold get_all in length-insert_old bytes_discrete key (c ∷ rest) l u e

length-set-delete_clients :
    (u : UserMap.UserMap) (key : Bytes) (olds : List Client) (v : Client) {l : List Client}
    → IsValid u
    → get_all u key ≡ some l
    → length (UserMap.set (UserMap.delete_clients u key olds).0 key v) ≡ length u
unfolding deletion
length-set-delete_clients u key olds v {l} h e =
    rw (delete_clients-deletion u key olds, e)
      (length-set-store_rest u key l (without_addrs (map (λ c. c.remote_addr) olds) l) v h e)

length-set-checked :
    (env : Env) (c : Client) (u : UserMap.UserMap) (o : Option (List Client))
    → IsValid u
    → get_all u c.user_id ≡ o
    → length (UserMap.set (checked env c u (get_found c.platform_id o)) c.user_id c)
      ≡ length u + (if (get_found c.platform_id o).1 then 0 else 1)
unfolding get_found
length-set-checked env c u none h e = length-set_new u c.user_id c e
length-set-checked env c u (some all) h e = ground (
  arith,
  length-set_old u c.user_id c e,
  length-set-delete_clients u c.user_id (UserMap.of_platform c.platform_id all) c h e,
)

-- A login adds a user exactly when the user had no connection.
pub length-clients-register_client :
    (env : Env) (c : Client) (s : Server)
    → IsValid s.clients
    → length (register_client env c s).clients
      ≡ length s.clients + (if (UserMap.get s.clients c.user_id c.platform_id).1 then 0 else 1)
length-clients-register_client env c s h =
    rw (clients-register_client env c s, get-get_found s.clients c.user_id c.platform_id)
      (length-set-checked env c s.clients (get_all s.clients c.user_id) h refl)

num-kick_all : (cs : List Client) (s : Server) → (kick_all cs s).online_user_num ≡ s.online_user_num
unfolding kick_all kick_online_message close
num-kick_all [] s = refl
num-kick_all (c ∷ cs) s = ground (arith, num-kick_all cs (close c s))

num-write_tokens :
    (env : Env) (c : Client) (r : Option (Map Bytes ℕ) × Option Error) (s : Server)
    → (write_tokens env c r s).online_user_num ≡ s.online_user_num
unfolding write_tokens
num-write_tokens env c (none, e) s = refl
num-write_tokens env c (some m, none) s = refl
num-write_tokens env c (some m, some e) s = ground arith

num-kick_same_terminal :
    (env : Env) (ok : Bool) (olds : List Client) (c : Client) (s : Server)
    → (kick_same_terminal env ok olds c s).online_user_num ≡ s.online_user_num
unfolding kick_same_terminal
num-kick_same_terminal env true olds c s =
    num-write_tokens env c (env.get_tokens c.user_id c.platform_id) _
    ∙ num-kick_all olds (record s { clients = (UserMap.delete_clients s.clients c.user_id olds).0 })
num-kick_same_terminal env false olds c s = refl

num-check_policy :
    (p : LoginPolicy) (env : Env) (ok : Bool) (olds : List Client) (c : Client) (s : Server)
    → (check_policy p env ok olds c s).online_user_num ≡ s.online_user_num
unfolding check_policy
num-check_policy defalut_not_kick env ok olds c s = refl
num-check_policy pc_and_other env ok olds c s =
    ground (arith, num-kick_same_terminal env ok olds c s)
num-check_policy all_login_but_same_term_kick env ok olds c s =
    num-kick_same_terminal env ok olds c s
num-check_policy (other_policy n) env ok olds c s = refl

pub num-checker :
    (env : Env) (ok : Bool) (olds : List Client) (c : Client) (s : Server)
    → (multi_terminal_login_checker env ok olds c s).online_user_num ≡ s.online_user_num
unfolding multi_terminal_login_checker
num-checker env ok olds c s = num-check_policy env.multi_login_policy env ok olds c s

num-admit :
    (env : Env) (c : Client) (found : List Client × Bool × Bool) (s : Server)
    → (admit env c found s).online_user_num
      ≡ (if found.1 then s.online_user_num else s.online_user_num +ℤ pos 1)
unfolding admit
num-admit env c (olds, false, ok) s = refl
num-admit env c (olds, true, ok) s = num-checker env ok olds c s

pub num-register_client :
    (env : Env) (c : Client) (s : Server)
    → (register_client env c s).online_user_num ≡ (
        if (UserMap.get s.clients c.user_id c.platform_id).1
        then s.online_user_num
        else s.online_user_num +ℤ pos 1)
unfolding register_client
num-register_client env c s =
    ground (arith, num-admit env c (UserMap.get s.clients c.user_id c.platform_id) s)

-- What a login does to the map keeps it valid.
pub checked-IsValid :
    (env : Env) (c : Client) (u : UserMap.UserMap) (found : List Client × Bool × Bool)
    → IsValid u
    → IsValid (checked env c u found)
checked-IsValid env c u (olds, user_ok, ok) h =
    elim (Bool-cases (user_ok && (replaces env c && ok))) [
      | inl e ↦ rw e (delete_clients-IsValid u c.user_id olds h)
      | inr e ↦ rw e h
    ]
