-- ===== src/Gateway/UserMap/Laws.antt =====
-- What the operations of UserMap (internal/msggateway/user_map.go) keep and return.
use open_im_server.Base.{
  ◌+◌, ◌≡◌, refl, ◌≢◌, Bool, false, Bytes, bytes_discrete, List, [], ◌∷◌, ◌++◌, map, Option, none,
  some, lookup, lookup-insert, lookup-delete, IsDistinct, insert-IsDistinct, delete-IsDistinct,
  length, length-delete, length-insert_new, length-insert_old, arith, ite, if◌then◌else◌,
  Option-cases, inl, inr,
}
use open_im_server.Gateway.Client.{Client}
use open_im_server.Gateway.UserMap.{
  UserMap, get_all, set, store_rest, delete_addr, delete_clients, without_addr, without_addrs,
}

abbrev pub some_clients : Option (List Client) → List Client
some_clients none = []
some_clients (some l) = l

-- A user is in the map when it has at least one client.
abbrev pub present : List Client → Option (List Client)
present [] = none
present (c ∷ l) = some (c ∷ l)

abbrev pub present_of : (List Client → List Client) → Option (List Client) → Option (List Client)
present_of f none = none
present_of f (some l) = present (f l)

-- The keys are distinct, and no user stands with an empty list of clients.
pub record IsValid (u : UserMap) : Type 0 where
  pub distinct : IsDistinct bytes_discrete u
  pub non_empty : (key : Bytes) → get_all u key ≢ some []

append_one : (l : List Client) (v : Client) → l ++ v ∷ [] ≢ []
append_one [] v = λ e. cc
append_one (c ∷ l) v = λ e. cc

pub get_all-set :
    (u : UserMap) (key j : Bytes) (v : Client)
    → get_all (set u key v) j
      ≡ ite (bytes_discrete key j) (some (some_clients (get_all u key) ++ v ∷ [])) (get_all u j)
unfolding get_all set
get_all-set u key j v = elim (Option-cases (lookup bytes_discrete key u)) [
  | inl e ↦ rw (e, set) (lookup-insert bytes_discrete key j (v ∷ []) u)
  | inr (old, e) ↦ rw (e, set) (lookup-insert bytes_discrete key j (old ++ v ∷ []) u)
]

set-IsDistinct :
    (u : UserMap) (key : Bytes) (v : Client)
    → IsDistinct bytes_discrete u
    → IsDistinct bytes_discrete (set u key v)
unfolding set
set-IsDistinct u key v d = elim (Option-cases (lookup bytes_discrete key u)) [
  | inl e ↦ rw (e, set) (insert-IsDistinct bytes_discrete key (v ∷ []) u d)
  | inr (old, e) ↦ rw (e, set) (insert-IsDistinct bytes_discrete key (old ++ v ∷ []) u d)
]

pub set-IsValid : (u : UserMap) (key : Bytes) (v : Client) → IsValid u → IsValid (set u key v)
set-IsValid u key v h = record {
  distinct = set-IsDistinct u key v h.distinct;
  non_empty = λ j e.
      ground
        (arith, h.non_empty j, get_all-set u key j v, append_one (some_clients (get_all u key)) v);
}

-- A new user adds a key; a new connection of a user that is there does not.
pub length-set_new :
    (u : UserMap) (key : Bytes) (v : Client)
    → get_all u key ≡ none
    → length (set u key v) ≡ length u + 1
unfolding get_all set
length-set_new u key v e = rw (e, set) (length-insert_new bytes_discrete key (v ∷ []) u e)

pub length-set_old :
    (u : UserMap) (key : Bytes) (v : Client) {l : List Client}
    → get_all u key ≡ some l
    → length (set u key v) ≡ length u
unfolding get_all set
length-set_old u key v {l} e = rw (e, set) (length-insert_old bytes_discrete key _ l u e)

-- What both deletions do: the clients that `f` leaves replace those of the user, the user goes
-- when none is left, and the result says whether it went.
module _ (f : List Client → List Client) (u : UserMap) (key : Bytes) where
  unfoldable pub deletion : Option (List Client) → UserMap × Bool
  deletion none = (u, false)
  deletion (some old) = store_rest u key (f old)

  pub get_all-store_rest :
      (rest : List Client) (j : Bytes)
      → get_all (store_rest u key rest).0 j
        ≡ ite (bytes_discrete key j) (present rest) (get_all u j)
  unfolding get_all store_rest
  get_all-store_rest [] j = lookup-delete bytes_discrete key j u
  get_all-store_rest (c ∷ rest) j = lookup-insert bytes_discrete key j (c ∷ rest) u

  pub get_all-deletion :
      (o : Option (List Client)) (j : Bytes)
      → get_all u key ≡ o
      → get_all (deletion o).0 j ≡ ite (bytes_discrete key j) (present_of f o) (get_all u j)
  unfolding deletion
  get_all-deletion none j e = ground arith
  get_all-deletion (some old) j e = get_all-store_rest (f old) j

  store_rest-IsDistinct :
      (rest : List Client)
      → IsDistinct bytes_discrete u
      → IsDistinct bytes_discrete (store_rest u key rest).0
  unfolding store_rest
  store_rest-IsDistinct [] d = delete-IsDistinct bytes_discrete key u d
  store_rest-IsDistinct (c ∷ rest) d = insert-IsDistinct bytes_discrete key (c ∷ rest) u d

  deletion-IsValid :
      (o : Option (List Client)) → get_all u key ≡ o → IsValid u → IsValid (deletion o).0
  unfolding deletion
  deletion-IsValid none e h = h
  deletion-IsValid (some old) e h = record {
    distinct = store_rest-IsDistinct (f old) h.distinct;
    non_empty =
        λ j eq. not_present (f old) (ground (arith, h.non_empty j, get_all-store_rest (f old) j));
  }
    where
      not_present : (rest : List Client) → present rest ≡ some [] → ⊥
      not_present [] = λ e. cc
      not_present (c ∷ rest) = λ e. cc

  -- The result is true exactly when a user goes, and then the map has one key fewer.
  length-deletion :
      (o : Option (List Client))
      → get_all u key ≡ o
      → IsValid u
      → length (deletion o).0 + (if (deletion o).1 then 1 else 0) ≡ length u
  unfolding deletion store_rest get_all
  length-deletion none e h = omega arith
  length-deletion (some old) e h = go (f old)
    where
      go :
          (rest : List Client)
          → length (store_rest u key rest).0 + (if (store_rest u key rest).1 then 1 else 0)
            ≡ length u
      go [] = length-delete bytes_discrete key u old h.distinct e
      go (c ∷ rest) = omega (arith, length-insert_old bytes_discrete key (c ∷ rest) old u e)

pub delete_addr-deletion :
    (u : UserMap) (key addr : Bytes)
    → delete_addr u key addr ≡ deletion (without_addr addr) u key (get_all u key)
unfolding delete_addr deletion get_all
delete_addr-deletion u key addr = ground arith

pub delete_clients-deletion :
    (u : UserMap) (key : Bytes) (clients : List Client)
    → delete_clients u key clients
      ≡ deletion (without_addrs (map (λ c. c.remote_addr) clients)) u key (get_all u key)
unfolding delete_clients deletion get_all
delete_clients-deletion u key clients = ground arith

-- The map stays valid.
pub delete_addr-IsValid :
    (u : UserMap) (key addr : Bytes) → IsValid u → IsValid (delete_addr u key addr).0
delete_addr-IsValid u key addr h =
    rw (delete_addr-deletion u key addr)
      (deletion-IsValid (without_addr addr) u key (get_all u key) refl h)

pub delete_clients-IsValid :
    (u : UserMap) (key : Bytes) (clients : List Client)
    → IsValid u
    → IsValid (delete_clients u key clients).0
delete_clients-IsValid u key clients h =
    rw (delete_clients-deletion u key clients) (deletion-IsValid _ u key (get_all u key) refl h)

-- On a valid map `delete` removes the connections at the address from that user's list and touches
-- no other user; it drops the user exactly when it returns true, and the number of users falls by
-- one then and not otherwise.
pub delete_addr_lem :
    (u : UserMap) (key addr j : Bytes)
    → IsValid u
    → (get_all (delete_addr u key addr).0 j
        ≡ ite (bytes_discrete key j) (present_of (without_addr addr) (get_all u key)) (get_all u j))
      × (length (delete_addr u key addr).0 + (if (delete_addr u key addr).1 then 1 else 0)
          ≡ length u)
delete_addr_lem u key addr j h = rw (delete_addr-deletion u key addr) (
  get_all-deletion (without_addr addr) u key (get_all u key) j refl,
  length-deletion (without_addr addr) u key (get_all u key) refl h,
)

-- On a valid map `deleteClients` removes the connections at any of the clients' addresses from
-- that user's list and touches no other user; it drops the user exactly when it returns true, and
-- the number of users falls by one then and not otherwise.
pub delete_clients_lem :
    (u : UserMap) (key : Bytes) (clients : List Client) (j : Bytes)
    → IsValid u
    → (get_all (delete_clients u key clients).0 j
        ≡ ite
            (bytes_discrete key j)
            (present_of (without_addrs (map (λ c. c.remote_addr) clients)) (get_all u key))
            (get_all u j))
      × (length (delete_clients u key clients).0
            + (if (delete_clients u key clients).1 then 1 else 0)
          ≡ length u)
delete_clients_lem u key clients j h = rw (delete_clients-deletion u key clients) (
  get_all-deletion _ u key (get_all u key) j refl,
  length-deletion _ u key (get_all u key) refl h,
)
