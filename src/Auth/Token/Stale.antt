-- ===== src/Auth/Token/Stale.antt =====
-- Which tokens `CreateToken` of pkg/common/db/controller/auth.go deletes, and in which order it acts.
use open_im_server.Base.{
  ℕ, ◌==◌, ◌≡◌, ◌≢◌, ◌↔◌, ◌⊎◌, ◌∙◌, sym, refl, Bool, true, false, Error, Option-cases, not, ◌||◌,
  Bytes, bytes_discrete, List, [], ◌∷◌, ◌++◌, Option, none, some, Map, lookup, IsDistinct, contains,
  Result, ok, err, arith, inl, inr, Result-cases,
}
use open_im_server.Auth.Token.{
  Services, TokenOp, delete_tokens, add_flag, is_err, delete_token_key, delete_stale, stale_ops,
  issue, delete_and_issue, create_token,
}

-- Whether the loop selects a token with a status.
abbrev pub is_stale : Services → Bytes → Bytes → ℕ → Bool
is_stale sv secret k v = is_err (sv.get_claim k secret) || not (v == sv.normal_token)

abbrev pub stale_at : Services → Bytes → Bytes → Option ℕ → Bool
stale_at sv secret k none = false
stale_at sv secret k (some v) = is_stale sv secret k v

contains-delete_token_key_absent :
    (sv : Services) (secret k : Bytes) (m : Map Bytes ℕ)
    → lookup bytes_discrete k m ≡ none
    → contains bytes_discrete k (delete_token_key sv secret m) ≡ false
unfolding lookup delete_token_key
contains-delete_token_key_absent sv secret k [] h = refl
contains-delete_token_key_absent sv secret k ((j, v) ∷ m) h =
    ground (arith, contains-delete_token_key_absent sv secret k m)

-- Of a map with distinct keys the loop selects exactly the tokens that do not verify or whose
-- status is not the normal one.
contains-delete_token_key :
    (sv : Services) (secret k : Bytes) (m : Map Bytes ℕ)
    → IsDistinct bytes_discrete m
    → contains bytes_discrete k (delete_token_key sv secret m)
      ≡ stale_at sv secret k (lookup bytes_discrete k m)
unfolding lookup delete_token_key
contains-delete_token_key sv secret k [] d = refl
contains-delete_token_key sv secret k ((j, v) ∷ m) d = ground (
  arith,
  contains-delete_token_key sv secret k m d.1,
  contains-delete_token_key_absent sv secret k m,
)

issue_ok :
    (sv : Services) (user_id : Bytes) (platform_id : ℕ) (ops : List TokenOp) (r : Result Bytes)
    {token : Bytes}
    → (issue sv user_id platform_id ops r).1 ≡ ok token
    → (r ≡ ok token)
      × ((issue sv user_id platform_id ops r).0
          ≡ ops ++ add_flag user_id platform_id token sv.normal_token ∷ [])
unfolding issue
issue_ok sv user_id platform_id ops (err e) h = cc
issue_ok sv user_id platform_id ops (ok t) h = ground arith

delete_and_issue_ok :
    (sv : Services) (access_secret : Bytes) (expire : ℕ) (user_id : Bytes) (platform_id : ℕ)
    (stale : List Bytes) {token : Bytes}
    → (delete_and_issue sv access_secret expire user_id platform_id stale).1 ≡ ok token
    → (sv.sign user_id platform_id expire access_secret ≡ ok token)
      × ((delete_and_issue sv access_secret expire user_id platform_id stale).0
          ≡ stale_ops user_id platform_id stale
            ++ add_flag user_id platform_id token sv.normal_token ∷ [])
unfolding delete_and_issue
delete_and_issue_ok sv access_secret expire user_id platform_id stale h =
    elim (Result-cases (delete_stale sv stale)) [
      | inl (u, e) ↦
          rw (e, delete_and_issue)
            (issue_ok sv user_id platform_id (stale_ops user_id platform_id stale) _
              (rw (e, delete_and_issue) at h))
      | inr (x, e) ↦ absurd (cc (rw (e, delete_and_issue) at h))
    ]

-- A token of the map that does not verify, or whose status is not the normal one.
abbrev pub IsStale : Services → Bytes → Map Bytes ℕ → Bytes → Type 0
IsStale sv secret m k =
    (v : ℕ) × (lookup bytes_discrete k m ≡ some v)
    × (((e : Error) × (sv.get_claim k secret ≡ err e)) ⊎ (v ≢ sv.normal_token))

is_stale_inv :
    (sv : Services) (secret k : Bytes) (v : ℕ)
    → is_stale sv secret k v ≡ true
    → ((e : Error) × (sv.get_claim k secret ≡ err e)) ⊎ (v ≢ sv.normal_token)
is_stale_inv sv secret k v h = elim (Result-cases (sv.get_claim k secret)) [
  | inl (c, e) ↦ inr λ same. ground (arith, h, e, same)
  | inr (x, e) ↦ inl (x, e)
]

is_stale_of :
    (sv : Services) (secret k : Bytes) (v : ℕ)
    → ((e : Error) × (sv.get_claim k secret ≡ err e)) ⊎ (v ≢ sv.normal_token)
    → is_stale sv secret k v ≡ true
is_stale_of sv secret k v (inl (x, e)) = rw e refl
is_stale_of sv secret k v (inr n) = elim (Result-cases (sv.get_claim k secret)) [
  | inl (c, e) ↦ rw e (ground (arith, n))
  | inr (x, e) ↦ rw e refl
]

stale_at_iff :
    (sv : Services) (secret k : Bytes) (m : Map Bytes ℕ)
    → (stale_at sv secret k (lookup bytes_discrete k m) ≡ true) ↔ IsStale sv secret m k
stale_at_iff sv secret k m = elim (Option-cases (lookup bytes_discrete k m)) [
  | inl e ↦ (λ h. absurd (cc (rw e at h)), λ h. absurd (cc (sym e ∙ h.1)))
  | inr (v, e) ↦ (
    λ h. (v, e, is_stale_inv sv secret k v (rw e at h)),
    λ h. rw h.1 (is_stale_of sv secret k h.0 h.2),
  )
]

-- The calls before a token is returned: a deletion of all the stale tokens, which succeeds, if there are any,
-- and then the flag of the new token.
abbrev pub DeletesThenAdds : Services → Bytes → ℕ → Bytes → List Bytes → List TokenOp → Type 0
DeletesThenAdds sv user_id platform_id token [] ops =
    ops ≡ add_flag user_id platform_id token sv.normal_token ∷ []
DeletesThenAdds sv user_id platform_id token (k ∷ ks) ops =
    (sv.delete_answer ≡ ok tt)
    × (ops
        ≡ delete_tokens user_id platform_id (k ∷ ks)
          ∷ add_flag user_id platform_id token sv.normal_token
          ∷ [])

delete_stale_ok :
    (sv : Services) (access_secret : Bytes) (expire : ℕ) (user_id : Bytes) (platform_id : ℕ)
    (stale : List Bytes) {token : Bytes}
    → (delete_and_issue sv access_secret expire user_id platform_id stale).1 ≡ ok token
    → (sv.sign user_id platform_id expire access_secret ≡ ok token)
      × DeletesThenAdds sv user_id platform_id token stale
          (delete_and_issue sv access_secret expire user_id platform_id stale).0
unfolding delete_and_issue
delete_stale_ok sv access_secret expire user_id platform_id [] h =
    delete_and_issue_ok sv access_secret expire user_id platform_id [] h
delete_stale_ok sv access_secret expire user_id platform_id (k ∷ ks) h =
    let (signed, ops) =
      delete_and_issue_ok sv access_secret expire user_id platform_id (k ∷ ks) h in
    (signed, (deletion_made, ops))
  where
    deletion_made : sv.delete_answer ≡ ok tt
    deletion_made = elim (Result-cases sv.delete_answer) [
      | inl (u, e) ↦ e
      | inr (x, e) ↦ absurd (cc (rw (e, delete_and_issue) at h))
    ]

-- When `CreateToken` returns a token and the map of tokens that it reads has no key twice, the
-- token is the signature for the user, the platform and the life. Before, if there are stale
-- tokens, they are deleted in one call, which succeeds; last, the normal flag of the new token is
-- added; there is no other call. A token is deleted exactly if it is in the map and does not
-- verify or has another status than the normal one.
pub create_token_ok :
    (sv : Services) (secret access_secret : Bytes) (expire : ℕ) (user_id : Bytes) (platform_id : ℕ)
    (m : Map Bytes ℕ) {token : Bytes}
    → sv.get_tokens user_id platform_id ≡ ok m
    → IsDistinct bytes_discrete m
    → (create_token sv secret access_secret expire user_id platform_id).1 ≡ ok token
    → (sv.sign user_id platform_id expire access_secret ≡ ok token)
      × ((stale : List Bytes) × DeletesThenAdds sv user_id platform_id token stale
            (create_token sv secret access_secret expire user_id platform_id).0
          × ((k : Bytes) → (contains bytes_discrete k stale ≡ true) ↔ IsStale sv secret m k))
unfolding create_token
create_token_ok sv secret access_secret expire user_id platform_id m read distinct h =
    let stale = delete_token_key sv secret m in
    let (signed, ops) =
      delete_stale_ok sv access_secret expire user_id platform_id stale
        (rw (read, create_token) at h) in
    (
      signed,
      (
        stale,
        rw (read, create_token) ops,
        λ k. rw (contains-delete_token_key sv secret k m distinct) (stale_at_iff sv secret k m),
      ),
    )
