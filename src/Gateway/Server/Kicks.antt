-- ===== src/Gateway/Server/Kicks.antt =====
-- What a kick leaves behind (n_ws_server.go, `KickUserConn`, and `unregisterClient` after it).
use open_im_server.Base.{
  ◌+◌, ◌≡◌, refl, ◌∙◌, true, false, Bytes, bytes_discrete, [], ◌∷◌, none, some, length,
  length-delete, lookup-delete, delete, arith,
}
use open_im_server.Base.Int.{pos, ◌+ℤ◌}
use mathlib.Core.Logic.{if_pos}
use open_im_server.Gateway.Client.{Client}
use open_im_server.Gateway.UserMap
use open_im_server.Gateway.UserMap.{get_all, without_addr, without_addrs, store_rest, get_found}
use open_im_server.Gateway.UserMap.Laws.{
  IsValid, deletion, delete_addr-deletion, delete_clients-deletion, get_all-set,
}
use open_im_server.Gateway.Server.Checker.{get-get_found}
use open_im_server.Gateway.Server.{
  Env, Server, admit, register_client, close, kick_online_message, kick_user_conn,
  unregister_client,
}

-- `deleteClients` of the only connection of a user takes the user out.
only_removed :
    (c : Client) (u : UserMap.UserMap)
    → get_all u c.user_id ≡ some (c ∷ [])
    → UserMap.delete_clients u c.user_id (c ∷ []) ≡ (delete bytes_discrete c.user_id u, true)
unfolding without_addrs deletion store_rest
only_removed c u e =
    rw (delete_clients-deletion u c.user_id (c ∷ []), e) (ground (arith, store_rest-without c u))
  where
    store_rest-without :
        (c : Client) (u : UserMap.UserMap)
        → store_rest u c.user_id (without_addrs (c.remote_addr ∷ []) (c ∷ []))
          ≡ (delete bytes_discrete c.user_id u, true)
    store_rest-without c u = ground arith

-- A deletion of a user that is not there says that no user went.
delete_addr_absent :
    (u : UserMap.UserMap) (key addr : Bytes)
    → get_all u key ≡ none
    → UserMap.delete_addr u key addr ≡ (u, false)
unfolding deletion
delete_addr_absent u key addr e = rw (delete_addr-deletion u key addr, e)

clients-close : (c : Client) (s : Server) → (close c s).clients ≡ s.clients
unfolding close
clients-close c s = ground arith

num-close : (c : Client) (s : Server) → (close c s).online_user_num ≡ s.online_user_num
unfolding close
num-close c s = ground arith

-- To kick the only connection of a user of a valid map, and then handle its disconnection, takes
-- the user out of the map and leaves `onlineUserNum` as it was: the counter stays one too high.
pub kick_user_conn-leaks :
    (c : Client) (s : Server)
    → IsValid s.clients
    → get_all s.clients c.user_id ≡ some (c ∷ [])
    → (get_all (unregister_client c (kick_user_conn c s)).clients c.user_id ≡ none)
      × (length (unregister_client c (kick_user_conn c s)).clients + 1 ≡ length s.clients)
      × ((unregister_client c (kick_user_conn c s)).online_user_num ≡ s.online_user_num)
unfolding kick_user_conn kick_online_message unregister_client
kick_user_conn-leaks c s h e =
    let u = delete bytes_discrete c.user_id s.clients in
    let gone : get_all u c.user_id ≡ none =
      unfold get_all in
      lookup-delete bytes_discrete c.user_id c.user_id s.clients
      ∙ if_pos (bytes_discrete c.user_id c.user_id) refl _ _ in
    let taken = only_removed c s.clients e in
    ground (
      arith,
      taken,
      gone,
      clients-close c
          (record s { clients = (UserMap.delete_clients s.clients c.user_id (c ∷ [])).0 }),
      num-close c (record s { clients = (UserMap.delete_clients s.clients c.user_id (c ∷ [])).0 }),
      delete_addr_absent u c.user_id c.remote_addr gone,
      length-taken,
    )
  where
    length-taken : length (delete bytes_discrete c.user_id s.clients) + 1 ≡ length s.clients
    length-taken =
        unfold get_all in length-delete bytes_discrete c.user_id s.clients (c ∷ []) h.distinct e

-- `select` may take a disconnection before the login of the same connection. For a user without
-- connections the disconnection then finds nothing, and the login that follows puts the dead
-- connection into the map and counts its user as online.
pub late_register-leaks :
    (env : Env) (c : Client) (s : Server)
    → get_all s.clients c.user_id ≡ none
    → (get_all (register_client env c (unregister_client c s)).clients c.user_id ≡ some (c ∷ []))
      × ((register_client env c (unregister_client c s)).online_user_num
          ≡ s.online_user_num +ℤ pos 1)
      × ((unregister_client c s).clients ≡ s.clients)
unfolding unregister_client register_client admit get_found
late_register-leaks env c s e =
    let same = delete_addr_absent s.clients c.user_id c.remote_addr e in
    let found : UserMap.get s.clients c.user_id c.platform_id ≡ ([], false, false) =
      rw (get-get_found s.clients c.user_id c.platform_id, e) (ground arith) in
    ground (arith, same, found, get_all-set s.clients c.user_id c.user_id c)
