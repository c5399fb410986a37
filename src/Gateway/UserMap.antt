-- ===== src/Gateway/UserMap.antt =====
-- UserMap of internal/msggateway/user_map.go: the connections of each user that is online.
-- The slices that sync.Map holds are lists, in the order of `append`.
pub mod Laws
pub mod Removal
use open_im_server.Base.{
  ◌==◌, Bool, true, false, not, Bytes, bytes_discrete, List, [], ◌∷◌, ◌++◌, map, Option, none, some,
  Map, lookup, insert, delete, keep, contains, if◌then◌else◌, dec_true,
}
use open_im_server.Base.{ℕ}
use open_im_server.Gateway.Client.{Client}

abbrev pub UserMap : Type 0
UserMap = Map Bytes (List Client)

-- The clients of one platform: the loop of `Get`.
unfoldable pub of_platform : ℕ → List Client → List Client
of_platform platform_id = keep (λ c. c.platform_id == platform_id)

abbrev pub is_empty {ℓ} : {A : Type ℓ} → List A → Bool
is_empty [] = true
is_empty (x ∷ xs) = false

-- The clients that are left when those at an address go: the loop of `delete`.
unfoldable pub without_addr : Bytes → List Client → List Client
without_addr addr = keep (λ c. not (dec_true (bytes_discrete c.remote_addr addr)))

-- The clients that are left when those at any of some addresses go: the loop of `deleteClients`.
unfoldable pub without_addrs : List Bytes → List Client → List Client
without_addrs addrs = keep (λ c. not (contains bytes_discrete c.remote_addr addrs))

unfoldable pub get_all : UserMap → Bytes → Option (List Client)
get_all u key = lookup bytes_discrete key u

unfoldable pub get_found : ℕ → Option (List Client) → List Client × Bool × Bool
unfolding of_platform
get_found platform_id none = ([], false, false)
get_found platform_id (some all) =
    let clients = of_platform platform_id all in (clients, true, not (is_empty clients))

-- The clients, whether the user exists, and whether it has a client of the platform.
unfoldable pub get : UserMap → Bytes → ℕ → List Client × Bool × Bool
unfolding get_found
get u key platform_id = get_found platform_id (lookup bytes_discrete key u)

unfoldable pub set : UserMap → Bytes → Client → UserMap
set u key v = elim (lookup bytes_discrete key u) [
  | none ↦ insert bytes_discrete key (v ∷ []) u
  | some old ↦ insert bytes_discrete key (old ++ v ∷ []) u
]

-- The `if len(a) == 0` that ends both deletions.
unfoldable pub store_rest : UserMap → Bytes → List Client → UserMap × Bool
store_rest u key [] = (delete bytes_discrete key u, true)
store_rest u key (c ∷ a) = (insert bytes_discrete key (c ∷ a) u, false)

unfoldable pub delete_addr : UserMap → Bytes → Bytes → UserMap × Bool
unfolding store_rest without_addr
delete_addr u key addr = elim (lookup bytes_discrete key u) [
  | none ↦ (u, false)
  | some old ↦ store_rest u key (without_addr addr old)
]

unfoldable pub delete_clients : UserMap → Bytes → List Client → UserMap × Bool
unfolding store_rest without_addrs
delete_clients u key clients = elim (lookup bytes_discrete key u) [
  | none ↦ (u, false)
  | some old ↦ store_rest u key (without_addrs (map (λ c. c.remote_addr) clients) old)
]

unfoldable pub delete_all : UserMap → Bytes → UserMap
delete_all u key = delete bytes_discrete key u
