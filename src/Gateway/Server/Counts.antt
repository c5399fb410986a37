-- ===== src/Gateway/Server/Counts.antt =====
-- The counter `onlineUserNum` of n_ws_server.go against the number of users in the map.
use open_im_server.Base.{
  ℕ, ◌+◌, ◌≡◌, refl, Bool, true, false, Bytes, bytes_discrete, List, [], ◌∷◌, contains, length,
  if◌then◌else◌, arith, Bool-cases, inl, inr,
}
use open_im_server.Base.Int.{pos, ◌+ℤ◌, ◌-ℤ◌, ◌≤ℤ◌, +ℤ_parts, -ℤ_parts, eq_of_parts}
use open_im_server.Gateway.Client.{Client}
use open_im_server.Gateway.UserMap
use open_im_server.Gateway.UserMap.{get_all, get_found, store_rest, without_addr, without_addrs}
use open_im_server.Gateway.UserMap.Laws.{
  IsValid, set-IsValid, delete_addr-IsValid, delete_clients-IsValid, delete_addr_lem,
  delete_clients_lem,
}
use open_im_server.Gateway.Server.{
  Env, Server, close, kick_online_message, multi_terminal_login_checker, register_client,
  unregister_client, kick_user_conn, kick_conns, kick_found, kick_user_offline, login_check,
  multi_terminal_login_check, Step, Reach, connect, hang_up, on_register, on_unregister, on_kick,
  check_login, here, next,
}
use open_im_server.Gateway.Server.Checker.{clients-checker, clients-register_client}
use open_im_server.Gateway.Server.Sizes.{
  length-clients-register_client, num-checker, num-register_client, checked-IsValid,
}

-- `onlineUserNum` is at least the number of users in a valid map.
pub record Bounded (s : Server) : Type 0 where
  pub valid : IsValid s.clients
  pub users : pos (length s.clients) ≤ℤ s.online_user_num

-- The two agree.
pub record Counted (s : Server) : Type 0 where
  pub valid : IsValid s.clients
  pub users : s.online_user_num ≡ pos (length s.clients)

register_client-IsValid :
    (env : Env) (c : Client) (s : Server)
    → IsValid s.clients
    → IsValid (register_client env c s).clients
register_client-IsValid env c s h =
    rw (clients-register_client env c s)
      (set-IsValid _ c.user_id c (checked-IsValid env c s.clients _ h))

-- A login keeps the map valid and `onlineUserNum` equal to the number of its users, if they were
-- so before.
register_client-Counted :
    (env : Env) (c : Client) (s : Server) → Counted s → Counted (register_client env c s)
register_client-Counted env c s h = record {
  valid = register_client-IsValid env c s h.valid;
  users = ground (
    arith,
    num-register_client env c s,
    length-clients-register_client env c s h.valid,
    +ℤ_parts s.online_user_num (pos 1),
    eq_of_parts (s.online_user_num +ℤ pos 1) (pos (length s.clients + 1)),
  );
}

unregister_client-counts :
    (c : Client) (s : Server)
    → IsValid s.clients
    → (length (unregister_client c s).clients
          + (if (UserMap.delete_addr s.clients c.user_id c.remote_addr).1 then 1 else 0)
        ≡ length s.clients)
      × ((unregister_client c s).online_user_num ≡ (
          if (UserMap.delete_addr s.clients c.user_id c.remote_addr).1
          then s.online_user_num -ℤ pos 1
          else s.online_user_num))
unfolding unregister_client
unregister_client-counts c s h = ((delete_addr_lem s.clients c.user_id c.remote_addr [] h).1, refl)

unregister_client-IsValid :
    (c : Client) (s : Server) → IsValid s.clients → IsValid (unregister_client c s).clients
unfolding unregister_client
unregister_client-IsValid c s h = delete_addr-IsValid s.clients c.user_id c.remote_addr h

-- A disconnection keeps the map valid and `onlineUserNum` equal to the number of its users, if
-- they were so before.
unregister_client-Counted : (c : Client) (s : Server) → Counted s → Counted (unregister_client c s)
unregister_client-Counted c s h = record {
  valid = unregister_client-IsValid c s h.valid;
  users = ground (
    arith,
    unregister_client-counts c s h.valid,
    -ℤ_parts s.online_user_num (pos 1),
    eq_of_parts (s.online_user_num -ℤ pos 1) (pos (length (unregister_client c s).clients)),
  );
}

register_client-Bounded :
    (env : Env) (c : Client) (s : Server) → Bounded s → Bounded (register_client env c s)
register_client-Bounded env c s h = record {
  valid = register_client-IsValid env c s h.valid;
  users = ground (
    arith,
    num-register_client env c s,
    length-clients-register_client env c s h.valid,
    +ℤ_parts s.online_user_num (pos 1),
  );
}

unregister_client-Bounded : (c : Client) (s : Server) → Bounded s → Bounded (unregister_client c s)
unregister_client-Bounded c s h = record {
  valid = unregister_client-IsValid c s h.valid;
  users = ground (arith, unregister_client-counts c s h.valid, -ℤ_parts s.online_user_num (pos 1));
}

close-Bounded : (c : Client) (s : Server) → Bounded s → Bounded (close c s)
unfolding close
close-Bounded c s h = elim (Bool-cases (contains bytes_discrete c.remote_addr s.closed)) [
  | inl e ↦ rw (e, close) h
  | inr e ↦ rw (e, close) (record { valid = h.valid; users = h.users })
]

-- The checker deletes users without counting them: the count can only stay behind.
checker-Bounded :
    (env : Env) (ok : Bool) (olds : List Client) (c : Client) (s : Server)
    → Bounded s
    → Bounded (multi_terminal_login_checker env ok olds c s)
checker-Bounded env ok olds c s h = record {
  valid =
      rw (clients-checker env ok olds c s)
        (checked-IsValid env c s.clients (olds, true, ok) h.valid);
  users = ground (
    arith,
    h.users,
    num-checker env ok olds c s,
    clients-checker env ok olds c s,
    (delete_clients_lem s.clients c.user_id olds [] h.valid).1,
  );
}

kick_user_conn-Bounded : (c : Client) (s : Server) → Bounded s → Bounded (kick_user_conn c s)
unfolding kick_user_conn kick_online_message
kick_user_conn-Bounded c s h =
    close-Bounded c (record s { clients = (UserMap.delete_clients s.clients c.user_id (c ∷ [])).0 })
      (record {
        valid = delete_clients-IsValid s.clients c.user_id (c ∷ []) h.valid;
        users =
            ground (arith, h.users, (delete_clients_lem s.clients c.user_id (c ∷ []) [] h.valid).1);
      })

kick_conns-Bounded : (cs : List Client) (s : Server) → Bounded s → Bounded (kick_conns cs s)
unfolding kick_conns
kick_conns-Bounded [] s h = h
kick_conns-Bounded (c ∷ cs) s h = kick_conns-Bounded cs _ (kick_user_conn-Bounded c s h)

kick_found-Bounded :
    (found : List Client × Bool × Bool) (s : Server) → Bounded s → Bounded (kick_found found s)
unfolding kick_found
kick_found-Bounded (cs, user_ok, false) s h = h
kick_found-Bounded (cs, user_ok, true) s h = kick_conns-Bounded cs s h

-- A call of KickUserOffline with nothing in between.
kick_user_offline-Bounded :
    (vs : List Bytes) (p : ℕ) (s : Server) → Bounded s → Bounded (kick_user_offline vs p s)
unfolding kick_user_offline
kick_user_offline-Bounded [] p s h = h
kick_user_offline-Bounded (v ∷ vs) p s h =
    kick_user_offline-Bounded vs p (kick_found (UserMap.get s.clients v p) s)
      (kick_found-Bounded (UserMap.get s.clients v p) s h)

login_check-Bounded :
    (found : List Client × Bool × Bool) (c : Client) (s : Server)
    → Bounded s
    → Bounded (login_check found c s)
unfolding login_check
login_check-Bounded (cs, false, ok) c s h = h
login_check-Bounded (cs, true, ok) c s h = record { valid = h.valid; users = h.users }

multi_terminal_login_check-Bounded :
    (user_id : Bytes) (p : ℕ) (token : Bytes) (s : Server)
    → Bounded s
    → Bounded (multi_terminal_login_check user_id p token s)
unfolding multi_terminal_login_check
multi_terminal_login_check-Bounded user_id p token s h =
    login_check-Bounded (UserMap.get s.clients user_id p) _ s h

Step-Bounded : {env : Env} {s t : Server} → Step env s t → Bounded s → Bounded t
Step-Bounded (connect c s) h = record { valid = h.valid; users = h.users }
Step-Bounded (hang_up c s) h = close-Bounded c s h
Step-Bounded {env} (on_register c rest s e) h =
    register_client-Bounded env c _ (record { valid = h.valid; users = h.users })
Step-Bounded (on_unregister c rest s e) h =
    unregister_client-Bounded c _ (record { valid = h.valid; users = h.users })
Step-Bounded {env} (on_kick k rest s e) h =
    checker-Bounded env k.client_ok k.old_clients k.new_client _
      (record { valid = h.valid; users = h.users })
Step-Bounded (check_login user_id p token s) h =
    multi_terminal_login_check-Bounded user_id p token s h

-- If the user map is valid (no key twice, no user without a connection) and `onlineUserNum` is at
-- least the number of its users, both stay so through any sequence of new connections,
-- disconnections, login checks from other nodes and turns of the loop of `Run`, in any order. No
-- call of `KickUserOffline`, which writes to the map outside of that loop, is among them.
pub Reach-Bounded : {env : Env} {s t : Server} → Bounded s → Reach env s t → Bounded t
Reach-Bounded h here = h
Reach-Bounded h (next r st) = Step-Bounded st (Reach-Bounded h r)
