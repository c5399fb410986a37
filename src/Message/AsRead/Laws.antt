-- ===== src/Message/AsRead/Laws.antt =====
-- What read receipts store (internal/rpc/msg/as_read.go).
use open_im_server.Base.{
  ◌≡◌, inl, inr, ap, refl, Bool, true, false, ◌&&◌, ◌||◌, Bytes, bytes_discrete, List, [], ◌∷◌,
  ◌++◌, some, Map, lookup, contains, All, if◌then◌else◌, Error, Result, ok, err, arith, ite,
  Bool-cases,
}
use mathlib.Core.Option.{map as option_map}
use open_im_server.Base.Int.{
  ℤ, pos, ◌+ℤ◌, ltb_ℤ, leb_ℤ, seq_range, int_discrete, contains-seq_range,
}
use open_im_server.Processor.Conversation.{
  SessionType, single_chat_type, group_chat_type, super_group_chat_type, notification_chat_type,
  other_session_type,
}
use open_im_server.Message.AsRead.{
  Conversation, ReadServices, ReadEffect, marked, set_has_read, notified, MarkReq, seqs_of,
  seqs_resp, or_redis_nil, if_ok, then_do, raise, raise_and_notify, mark_all, mark_up_to,
  mark_msgs_as_read, append_missed, unread_seqs, raise_conversation, mark_by_type, mark_if_any,
  mark_conversation_as_read, last_of,
}

contains-append :
    (x : ℤ) (xs ys : List ℤ)
    → contains int_discrete x (xs ++ ys) ≡ contains int_discrete x xs || contains int_discrete x ys
contains-append x [] ys = refl
contains-append x (z ∷ xs) ys = ground (arith, contains-append x xs ys)

contains-append_missed :
    (x : ℤ) (seqs ss : List ℤ)
    → contains int_discrete x (append_missed seqs ss)
      ≡ contains int_discrete x seqs || contains int_discrete x ss
unfolding append_missed
contains-append_missed x seqs [] = ground arith
contains-append_missed x seqs (s ∷ ss) = elim (Bool-cases (contains int_discrete s seqs)) [
  | inl e ↦ elim (int_discrete x s) [
    | yes same ↦
        let there : contains int_discrete x seqs ≡ true = rw same e in
        rw (e, contains-append_missed x seqs ss, there) refl
    | no n ↦ ground (arith, contains-append_missed x seqs ss)
  ]
  | inr e ↦
      ground (arith, contains-append_missed x (seqs ++ s ∷ []) ss, contains-append x seqs (s ∷ []))
]

-- A single chat marks exactly the numbers after the stored one up to the one that is claimed, and
-- those that the request lists.
contains-unread_seqs :
    (x current : ℤ) (req : MarkReq)
    → contains int_discrete x (unread_seqs current req)
      ≡ (leb_ℤ (current +ℤ pos 1) x && leb_ℤ x req.has_read_seq) || contains int_discrete x req.seqs
unfolding unread_seqs
contains-unread_seqs x current req =
    rw
      (
        contains-append_missed x (seq_range (current +ℤ pos 1) req.has_read_seq) req.seqs,
        contains-seq_range x (current +ℤ pos 1) req.has_read_seq,
      )
      refl

-- How a predicate passes through the steps of a handler.
module _ (P : ReadEffect → Type 0) where
  then_do-All :
      (answer : Result (Unit {0})) (x : ReadEffect) (rest : List ReadEffect × Result (Unit {0}))
      → P x
      → All P rest.0
      → All P (then_do answer x rest).0
  then_do-All (ok u) x rest h hs = (h, hs)
  then_do-All (err e) x rest h hs = tt

  raise-All :
      (up : Bool) (answer : Result (Unit {0})) (x : ReadEffect)
      (rest : List ReadEffect × Result (Unit {0}))
      → (up ≡ true → P x)
      → All P rest.0
      → All P (raise up answer x rest).0
  raise-All true answer x rest h hs = then_do-All answer x rest (h refl) hs
  raise-All false answer x rest h hs = hs

  if_ok-All {ℓ} :
      {A : Type ℓ} (r : Result A) (k : A → List ReadEffect × Result (Unit {0}))
      → ((a : A) → r ≡ ok a → All P (k a).0)
      → All P (if_ok r k).0
  if_ok-All (ok a) k h = h a refl
  if_ok-All (err e) k h = tt

  unless-All :
      (b : Bool) (e : Error) (rest : List ReadEffect × Result (Unit {0}))
      → (b ≡ false → All P rest.0)
      → All P (if b then ([], err e) else rest).0
  unless-All true e rest h = tt
  unless-All false e rest h = h refl

  mark_if_any-All :
      (seqs : List ℤ) (sv : ReadServices) (req : MarkReq)
      (rest : List ReadEffect × Result (Unit {0}))
      → ((s : ℤ) (ss : List ℤ)
          → seqs ≡ s ∷ ss
          → P (marked req.user_id req.conversation_id (s ∷ ss)))
      → All P rest.0
      → All P (mark_if_any seqs sv req rest).0
  mark_if_any-All [] sv req rest h hs = hs
  mark_if_any-All (s ∷ ss) sv req rest h hs = then_do-All sv.mark_answer _ rest (h s ss refl) hs

-- A change of the stored number is one of the number of the request's user in the request's conversation,
-- and raises it. What is marked is not restricted.
abbrev pub Raises : ReadServices → MarkReq → ReadEffect → Type 0
Raises sv req (marked u c ss) = Unit
Raises sv req (notified u c t tips) = Unit
Raises sv req (set_has_read u c s) =
    (u ≡ req.user_id)
    × (c ≡ req.conversation_id)
    × ((current : ℤ) × (or_redis_nil (sv.get_has_read_seq req.user_id req.conversation_id)
          ≡ ok current)
        × (ltb_ℤ current s ≡ true))

-- ... and not above the highest number of the conversation.
abbrev pub RaisesToMax : ReadServices → MarkReq → ReadEffect → Type 0
RaisesToMax sv req (marked u c ss) = Unit
RaisesToMax sv req (notified u c t tips) = Unit
RaisesToMax sv req (set_has_read u c s) =
    Raises sv req (set_has_read u c s)
    × ((max : ℤ) × (sv.get_max_seq req.conversation_id ≡ ok max) × (ltb_ℤ max s ≡ false))

raise_conversation-Raises :
    (sv : ReadServices) (req : MarkReq) (t : SessionType) (recv_id : Bytes) (seqs : List ℤ)
    (current : ℤ)
    → or_redis_nil (sv.get_has_read_seq req.user_id req.conversation_id) ≡ ok current
    → All (Raises sv req) (raise_conversation sv req t recv_id seqs current).0
unfolding raise_conversation
raise_conversation-Raises sv req t recv_id seqs current e =
    raise-All (Raises sv req) (ltb_ℤ current req.has_read_seq) sv.set_answer _ _
      (λ up. (refl, refl, (current, e, up))) (tt, tt)

mark_by_type-Raises :
    (t : SessionType) (sv : ReadServices) (req : MarkReq) (c : Conversation) (current : ℤ)
    → or_redis_nil (sv.get_has_read_seq req.user_id req.conversation_id) ≡ ok current
    → All (Raises sv req) (mark_by_type t sv req c current).0
unfolding mark_by_type
mark_by_type-Raises single_chat_type sv req c current e =
    mark_if_any-All (Raises sv req) (unread_seqs current req) sv req _ (λ s ss h. tt)
      (raise_conversation-Raises sv req c.conversation_type _ _ current e)
mark_by_type-Raises group_chat_type sv req c current e = tt
mark_by_type-Raises super_group_chat_type sv req c current e =
    raise_conversation-Raises sv req single_chat_type req.user_id [] current e
mark_by_type-Raises notification_chat_type sv req c current e =
    raise_conversation-Raises sv req single_chat_type req.user_id [] current e
mark_by_type-Raises (other_session_type n) sv req c current e = tt

-- `MarkConversationAsRead` never lowers a stored read number, whatever the request claims, and
-- changes the number of its own user and conversation only.
mark_conversation_as_read-Raises :
    (sv : ReadServices) (req : MarkReq) → All (Raises sv req) (mark_conversation_as_read sv req).0
unfolding mark_conversation_as_read
mark_conversation_as_read-Raises sv req =
    if_ok-All (Raises sv req) (sv.get_conversation req.user_id req.conversation_id) _ λ c found.
      if_ok-All (Raises sv req) (or_redis_nil (sv.get_has_read_seq req.user_id req.conversation_id))
        _ λ current e. mark_by_type-Raises c.conversation_type sv req c current e

raise_and_notify-RaisesToMax :
    (sv : ReadServices) (req : MarkReq) (c : Conversation) (max s : ℤ)
    → sv.get_max_seq req.conversation_id ≡ ok max
    → ltb_ℤ max s ≡ false
    → All (RaisesToMax sv req) (raise_and_notify sv req c s).0
unfolding raise_and_notify
raise_and_notify-RaisesToMax sv req c max s read below =
    if_ok-All (RaisesToMax sv req)
      (or_redis_nil (sv.get_has_read_seq req.user_id req.conversation_id)) _
      λ current e.
        raise-All (RaisesToMax sv req) (ltb_ℤ current s) sv.set_answer _ _
          (λ up. ((refl, refl, (current, e, up)), (max, read, below)))
          (if_ok-All (RaisesToMax sv req) sv.callback_single_msg_read _ (λ u h. (tt, tt)))

mark_up_to-RaisesToMax :
    (sv : ReadServices) (req : MarkReq) (s : ℤ) → All (RaisesToMax sv req) (mark_up_to sv req s).0
mark_up_to-RaisesToMax sv req s =
    if_ok-All (RaisesToMax sv req) (sv.get_max_seq req.conversation_id) _ λ max read.
      unless-All (RaisesToMax sv req) (ltb_ℤ max s) _ _ λ below.
        if_ok-All (RaisesToMax sv req) (sv.get_conversation req.user_id req.conversation_id) _
          λ c found.
            then_do-All (RaisesToMax sv req) sv.mark_answer _ _ tt
              (raise_and_notify-RaisesToMax sv req c max s read below)

-- `MarkMsgsAsRead` never lowers a stored read number and never stores one above the highest number
-- of the conversation.
pub mark_msgs_as_read-RaisesToMax :
    (sv : ReadServices) (req : MarkReq) → All (RaisesToMax sv req) (mark_msgs_as_read sv req).0
unfolding mark_msgs_as_read
mark_msgs_as_read-RaisesToMax sv req = go req.seqs
  where
    go : (seqs : List ℤ) → All (RaisesToMax sv req) (mark_all sv req seqs).0
    go [] = tt
    go (s ∷ ss) = mark_up_to-RaisesToMax sv req (last_of s ss)

-- The answer of `GetConversationsHasReadAndMaxSeq` holds each conversation that has a highest
-- number, with the user's read number, or 0, and the conversation's own limit in place of the
-- highest number if it has one.
lookup-seqs_resp :
    (id : Bytes) (has_read limits max_seqs : Map Bytes ℤ)
    → lookup bytes_discrete id (seqs_resp has_read limits max_seqs)
      ≡ option_map (seqs_of has_read limits id) (lookup bytes_discrete id max_seqs)
unfolding seqs_resp lookup
lookup-seqs_resp id has_read limits [] = refl
lookup-seqs_resp id has_read limits ((j, max) ∷ rest) =
    elim (bytes_discrete j id)
      as (λ d.
        ite d (some (seqs_of has_read limits j max))
          (lookup bytes_discrete id (seqs_resp has_read limits rest))
        ≡ option_map (seqs_of has_read limits id)
            (ite d (some max) (lookup bytes_discrete id rest))) [
              | yes e ↦ ap (λ k. some (seqs_of has_read limits k max)) e
              | no n ↦ lookup-seqs_resp id has_read limits rest
            ]
