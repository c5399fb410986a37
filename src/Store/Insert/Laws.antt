-- ===== src/Store/Insert/Laws.antt =====
-- What numbers a batch of new messages is given (pkg/common/db/controller/msg.go).
use open_im_server.Base.{
  ℕ, suc, ◌≤◌, ◌≡◌, refl, ap, ◌∙◌, inl, inr, Bool, true, false, Bytes, bytes_discrete, List, [],
  ◌∷◌, Option, none, some, Map, lookup, insert, lookup-insert, length, ltb, ite, is_redis_nil,
  Result, ok, err, arith, Bool-cases,
}
use open_im_server.Base.Int.{ℤ, pos, ◌+ℤ◌, count_up, eq_of_parts, +ℤ_parts}
use open_im_server.Store.Range.{StoredMsg}
use open_im_server.Store.Insert.{
  CacheServices, CacheCall, set_message_to_cache, set_max_seq, set_has_read_seqs, Inserted,
  number_msgs, number_and_store, checked_length, from_max_seq, batch_insert_chat_to_cache,
}

abbrev pub seqs_of_msgs : List StoredMsg → List ℤ
seqs_of_msgs [] = []
seqs_of_msgs (m ∷ ms) = m.seq ∷ seqs_of_msgs ms

step_law : (c : ℤ) (n : ℕ) → (c +ℤ pos 1) +ℤ pos n ≡ c +ℤ pos (suc n)
step_law c n =
    eq_of_parts _ _
      (ground (arith, +ℤ_parts c (pos 1), +ℤ_parts (c +ℤ pos 1) (pos n), +ℤ_parts c (pos (suc n))))

zero_law : (c : ℤ) → c ≡ c +ℤ pos 0
zero_law c = eq_of_parts _ _ (ground (arith, +ℤ_parts c (pos 0)))

-- The numbers of a batch are consecutive, from the one after the current highest number.
seqs-number_msgs :
    (current : ℤ) (ms : List StoredMsg) (t : Map Bytes ℤ)
    → (seqs_of_msgs (number_msgs current ms t).0 ≡ count_up (current +ℤ pos 1) (length ms))
      × ((number_msgs current ms t).2 ≡ current +ℤ pos (length ms))
unfolding number_msgs
seqs-number_msgs c [] t = (refl, zero_law c)
seqs-number_msgs c (m ∷ ms) t =
    let (seqs, last) =
      seqs-number_msgs (c +ℤ pos 1) ms (insert bytes_discrete m.send_id (c +ℤ pos 1) t) in
    (ap (λ l. (c +ℤ pos 1) ∷ l) seqs, last ∙ step_law c (length ms))

-- The number of a sender's last message, if there is one.
abbrev pub last_of_sender : Bytes → List StoredMsg → Option ℤ → Option ℤ
last_of_sender id [] s = s
last_of_sender id (m ∷ ms) s =
    last_of_sender id ms (ite (bytes_discrete m.send_id id) (some m.seq) s)

lookup-number_msgs :
    (current : ℤ) (ms : List StoredMsg) (t : Map Bytes ℤ) (id : Bytes)
    → lookup bytes_discrete id (number_msgs current ms t).1
      ≡ last_of_sender id (number_msgs current ms t).0 (lookup bytes_discrete id t)
unfolding number_msgs
lookup-number_msgs c [] t id = refl
lookup-number_msgs c (m ∷ ms) t id =
    rw
      (
        lookup-number_msgs (c +ℤ pos 1) ms (insert bytes_discrete m.send_id (c +ℤ pos 1) t) id,
        lookup-insert bytes_discrete m.send_id id (c +ℤ pos 1) t,
      )
      refl

-- The numbering starts at the conversation's highest number, or at 0 for a conversation that has none.
abbrev pub StartsAt : Result ℤ → Inserted → Type 0
StartsAt (ok current) i = (i.last_max_seq ≡ current) × (i.is_new ≡ false)
StartsAt (err e) i = (is_redis_nil e ≡ true) × (i.last_max_seq ≡ pos 0) × (i.is_new ≡ true)

-- The messages of a batch, in their order, whatever their numbers.
abbrev pub SameContents : List StoredMsg → List StoredMsg → Type 0
SameContents [] [] = Unit
SameContents (m ∷ ms) (n ∷ ns) =
    (n.send_id ≡ m.send_id) × (n.client_msg_id ≡ m.client_msg_id) × SameContents ms ns
SameContents _ _ = ⊥

number_msgs-SameContents :
    (current : ℤ) (ms : List StoredMsg) (t : Map Bytes ℤ)
    → SameContents ms (number_msgs current ms t).0
unfolding number_msgs
number_msgs-SameContents c [] t = tt
number_msgs-SameContents c (m ∷ ms) t = (
  refl,
  refl,
  number_msgs-SameContents (c +ℤ pos 1) ms (insert bytes_discrete m.send_id (c +ℤ pos 1) t),
)

-- What an accepted batch of messages asks of the cache.
abbrev pub IsNumbered : Bytes → List StoredMsg → Inserted → List CacheCall → Type 0
IsNumbered conversation_id msgs i calls =
    (1 ≤ length msgs)
    × (length msgs ≤ 100)
    × ((numbered : List StoredMsg) × (read_seqs : Map Bytes ℤ) × (calls
          ≡ set_message_to_cache conversation_id numbered
            ∷ set_max_seq conversation_id (i.last_max_seq +ℤ pos (length msgs))
            ∷ set_has_read_seqs conversation_id read_seqs
            ∷ [])
        × SameContents msgs numbered
        × (seqs_of_msgs numbered ≡ count_up (i.last_max_seq +ℤ pos 1) (length msgs))
        × ((id : Bytes) → lookup bytes_discrete id read_seqs ≡ last_of_sender id numbered none))

number_and_store-IsNumbered :
    (sv : CacheServices) (conversation_id : Bytes) (msgs : List StoredMsg) (current : ℤ)
    (is_new : Bool) (i : Inserted)
    → 1 ≤ length msgs
    → length msgs ≤ 100
    → (number_and_store sv conversation_id msgs current is_new).1 ≡ ok i
    → IsNumbered conversation_id msgs i (number_and_store sv conversation_id msgs current is_new).0
unfolding number_and_store lookup
number_and_store-IsNumbered sv conversation_id msgs current is_new i low high h =
    let (seqs, last) = seqs-number_msgs current msgs [] in
    let e : i.last_max_seq ≡ current = ground (arith) in
    let numbered = (number_msgs current msgs []).0 in
    let read_seqs = (number_msgs current msgs []).1 in
    (
      low,
      high,
      (
        numbered,
        read_seqs,
        rw (e, last) refl,
        number_msgs-SameContents current msgs [],
        rw e seqs,
        λ id. lookup-number_msgs current msgs [] id,
      ),
    )

checked_length-IsNumbered :
    (sv : CacheServices) (conversation_id : Bytes) (msgs : List StoredMsg) (current : ℤ)
    (is_new : Bool) (i : Inserted)
    → (checked_length sv conversation_id msgs current is_new).1 ≡ ok i
    → IsNumbered conversation_id msgs i (checked_length sv conversation_id msgs current is_new).0
checked_length-IsNumbered sv conversation_id msgs current is_new i h =
    elim (Bool-cases (ltb 100 (length msgs))) [
      | inl e ↦ ground (arith)
      | inr e ↦ elim (Bool-cases (ltb (length msgs) 1)) [
        | inl e' ↦ ground (arith)
        | inr e' ↦
            rw (e, e')
              (number_and_store-IsNumbered sv conversation_id msgs current is_new i (ground (arith))
                (ground (arith)) (rw (e, e') at h))
      ]
    ]

checked_length-Inserted :
    (sv : CacheServices) (conversation_id : Bytes) (msgs : List StoredMsg) (current : ℤ)
    (is_new : Bool) (i : Inserted)
    → (checked_length sv conversation_id msgs current is_new).1 ≡ ok i
    → (i.last_max_seq ≡ current) × (i.is_new ≡ is_new)
unfolding number_and_store
checked_length-Inserted sv conversation_id msgs current is_new i h =
    (ground (arith, h), ground (arith, h))

-- A batch that is accepted has 1 to 100 messages. Its numbering starts at the highest number that
-- the cache gives for the conversation, or at 0 if the cache has none. The cache is asked to keep
-- the same messages in their order under consecutive numbers from the next one on, then to set the
-- highest number to that of the last message, and each sender's read number to that of the
-- sender's last message in the batch.
pub batch_insert-IsNumbered :
    (sv : CacheServices) (conversation_id : Bytes) (msgs : List StoredMsg) (i : Inserted)
    → (batch_insert_chat_to_cache sv conversation_id msgs).1 ≡ ok i
    → StartsAt (sv.get_max_seq conversation_id) i
      × IsNumbered conversation_id msgs i (batch_insert_chat_to_cache sv conversation_id msgs).0
unfolding batch_insert_chat_to_cache
batch_insert-IsNumbered sv conversation_id msgs i h = go (sv.get_max_seq conversation_id) h
  where
    go :
        (r : Result ℤ)
        → (from_max_seq sv conversation_id msgs r).1 ≡ ok i
        → StartsAt r i
          × IsNumbered conversation_id msgs i (from_max_seq sv conversation_id msgs r).0
    go (ok current) h = (
      checked_length-Inserted sv conversation_id msgs current false i h,
      checked_length-IsNumbered sv conversation_id msgs current false i h,
    )
    go (err e) h = elim (Bool-cases (is_redis_nil e)) [
      | inl nil ↦
          let accepted : (checked_length sv conversation_id msgs (pos 0) true).1 ≡ ok i =
            rw nil at h in
          let (start, new) =
            checked_length-Inserted sv conversation_id msgs (pos 0) true i accepted in
          (
            (nil, start, new),
            rw nil (checked_length-IsNumbered sv conversation_id msgs (pos 0) true i accepted),
          )
      | inr n ↦ ground (arith)
    ]
