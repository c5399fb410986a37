-- ===== src/Gateway/UserMap/Removal.antt =====
-- What `delete` of internal/msggateway/user_map.go leaves of a user's connections.
use open_im_server.Base.{
  ◌+◌, ◌≡◌, refl, ap, ◌∙◌, ◌≢◌, not, dec_true, Bytes, bytes_discrete, List, [], ◌∷◌, Option, none,
  some, length, ite, if◌then◌else◌,
}
use open_im_server.Gateway.Client.{Client}
use open_im_server.Gateway.UserMap.{UserMap, get_all, delete_addr, without_addr}
use open_im_server.Gateway.UserMap.Laws.{
  some_clients, present, present_of, IsValid, delete_addr_lem,
}

-- A list without the connections at an address: the others in their order.
pub data Without (addr : Bytes) : List Client → List Client → Type 0 where
  nothing : Without addr [] []
  dropped :
      (c : Client) (cs rest : List Client)
      → c.remote_addr ≡ addr
      → Without addr cs rest
      → Without addr (c ∷ cs) rest
  kept :
      (c : Client) (cs rest : List Client)
      → c.remote_addr ≢ addr
      → Without addr cs rest
      → Without addr (c ∷ cs) (c ∷ rest)

without_addr-Without : (addr : Bytes) (cs : List Client) → Without addr cs (without_addr addr cs)
unfolding without_addr
without_addr-Without addr [] = nothing
without_addr-Without addr (c ∷ cs) =
    elim (bytes_discrete c.remote_addr addr)
      as (λ d.
        Without addr (c ∷ cs)
          (if not (dec_true d) then c ∷ without_addr addr cs else without_addr addr cs)) [
            | yes e ↦ dropped c cs _ e (without_addr-Without addr cs)
            | no n ↦ kept c cs _ n (without_addr-Without addr cs)
          ]

present_of-some_clients :
    (addr : Bytes) (o : Option (List Client))
    → present_of (without_addr addr) o ≡ present (without_addr addr (some_clients o))
unfolding without_addr
present_of-some_clients addr none = refl
present_of-some_clients addr (some l) = refl

-- On a valid map `delete` leaves of the user's connections those at other addresses, in their
-- order, and touches no other user; a user of whom none is left is gone, the result is true
-- exactly when a user goes, and the number of users falls by one then and not otherwise.
pub delete_addr-Without :
    (u : UserMap) (key addr j : Bytes)
    → IsValid u
    → ((rest : List Client) × Without addr (some_clients (get_all u key)) rest
        × (get_all (delete_addr u key addr).0 j
            ≡ ite (bytes_discrete key j) (present rest) (get_all u j)))
      × (length (delete_addr u key addr).0 + (if (delete_addr u key addr).1 then 1 else 0)
          ≡ length u)
delete_addr-Without u key addr j h =
    let old = some_clients (get_all u key) in
    let (at, count) = delete_addr_lem u key addr j h in
    (
      (
        without_addr addr old,
        without_addr-Without addr old,
        at
            ∙ ap (λ p. ite (bytes_discrete key j) p (get_all u j))
                (present_of-some_clients addr (get_all u key)),
      ),
      count,
    )
