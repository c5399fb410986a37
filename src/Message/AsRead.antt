-- ===== src/Message/AsRead.antt =====
-- Read receipts (internal/rpc/msg/as_read.go, and conversationAndGetRecvID of internal/rpc/msg/server.go).
-- A sequence number is an integer without a bound. The error of a notification is logged and dropped.
pub mod Laws
use open_im_server.Base.{
  ℕ, zero, suc, Bool, true, false, not, ◌||◌, Bytes, bytes_discrete, List, [], ◌∷◌, ◌++◌, Option,
  none, some, Map, lookup, insert, contains, dec_true, if◌then◌else◌, Error, err_args, is_redis_nil,
  Result, ok, err, ◌>>=◌, ◌>>◌, require,
}
use open_im_server.Base.Int.{ℤ, pos, negsuc, ◌+ℤ◌, ltb_ℤ, seq_range, int_discrete}
use open_im_server.Processor.Conversation.{
  SessionType, single_chat_type, super_group_chat_type, notification_chat_type,
}

pub record Conversation : Type 0 where
  pub owner_user_id : Bytes
  pub conversation_id : Bytes
  pub conversation_type : SessionType
  pub user_id : Bytes
  pub group_id : Bytes
  pub max_seq : ℤ

pub record ReadServices : Type 0 where
  pub get_conversation_ids : Bytes → Result (List Bytes)
  pub get_conversations : Bytes → List Bytes → Result (List Conversation)
  pub get_conversation : Bytes → Bytes → Result Conversation
  pub get_has_read_seqs : Bytes → List Bytes → Result (Map Bytes ℤ)
  pub get_max_seqs : List Bytes → Result (Map Bytes ℤ)
  pub get_max_seq : Bytes → Result ℤ
  pub get_has_read_seq : Bytes → Bytes → Result ℤ
  pub mark_answer : Result (Unit {0})
  pub set_answer : Result (Unit {0})
  pub callback_single_msg_read : Result (Unit {0})
  pub callback_group_msg_read : Result (Unit {0})

-- sdkws.MarkAsReadTips
pub record MarkAsReadTips : Type 0 where
  pub mark_as_read_user_id : Bytes
  pub conversation_id : Bytes
  pub seqs : List ℤ
  pub has_read_seq : ℤ

-- What reaches the database and the notification queue, in order.
pub data ReadEffect : Type 0 where
  marked : Bytes → Bytes → List ℤ → ReadEffect
  set_has_read : Bytes → Bytes → ℤ → ReadEffect
  notified : Bytes → Bytes → SessionType → MarkAsReadTips → ReadEffect

pub record MarkReq : Type 0 where
  pub user_id : Bytes
  pub conversation_id : Bytes
  pub has_read_seq : ℤ
  pub seqs : List ℤ

pub record Seqs : Type 0 where
  pub has_read_seq : ℤ
  pub max_seq : ℤ

-- `m[key]` of a Go map: the zero value for a missing key.
abbrev pub seq_or_zero : Option ℤ → ℤ
seq_or_zero none = pos 0
seq_or_zero (some s) = s

abbrev pub or_else : Option ℤ → ℤ → ℤ
or_else none d = d
or_else (some s) d = s

abbrev pub is_zero : ℤ → Bool
is_zero (pos zero) = true
is_zero (pos (suc n)) = false
is_zero (negsuc n) = false

abbrev pub wanted_ids : ReadServices → Bytes → List Bytes → Result (List Bytes)
wanted_ids sv user_id [] = sv.get_conversation_ids user_id
wanted_ids sv user_id (id ∷ ids) = ok (id ∷ ids)

-- The limits that the conversations set; a later conversation of the same name wins.
unfoldable pub conversation_max_seqs : List Conversation → Map Bytes ℤ → Map Bytes ℤ
conversation_max_seqs [] m = m
conversation_max_seqs (c ∷ cs) m =
    if is_zero c.max_seq
    then conversation_max_seqs cs m
    else conversation_max_seqs cs (insert bytes_discrete c.conversation_id c.max_seq m)

abbrev pub seqs_of : Map Bytes ℤ → Map Bytes ℤ → Bytes → ℤ → Seqs
seqs_of has_read limits id max = record {
  has_read_seq = seq_or_zero (lookup bytes_discrete id has_read);
  max_seq = or_else (lookup bytes_discrete id limits) max;
}

unfoldable pub seqs_resp : Map Bytes ℤ → Map Bytes ℤ → Map Bytes ℤ → Map Bytes Seqs
seqs_resp has_read limits [] = []
seqs_resp has_read limits ((id, max) ∷ rest) =
    (id, seqs_of has_read limits id max) ∷ seqs_resp has_read limits rest

unfoldable pub get_conversations_has_read_and_max_seq :
    ReadServices → Bytes → List Bytes → Result (Map Bytes Seqs)
unfolding conversation_max_seqs seqs_resp
get_conversations_has_read_and_max_seq sv user_id ids = do
  conversation_ids ← wanted_ids sv user_id ids
  has_read ← sv.get_has_read_seqs user_id conversation_ids
  conversations ← sv.get_conversations user_id conversation_ids
  max_seqs ← sv.get_max_seqs conversation_ids
  ok (seqs_resp has_read (conversation_max_seqs conversations []) max_seqs)

abbrev pub recv_id_by_type : SessionType → Conversation → Bytes → Bytes
recv_id_by_type single_chat_type c user_id =
    if dec_true (bytes_discrete user_id c.owner_user_id) then c.user_id else c.owner_user_id
recv_id_by_type notification_chat_type c user_id =
    if dec_true (bytes_discrete user_id c.owner_user_id) then c.user_id else c.owner_user_id
recv_id_by_type super_group_chat_type c user_id = c.group_id
recv_id_by_type _ c user_id = []

unfoldable pub conversation_and_get_recv_id : Conversation → Bytes → Bytes
conversation_and_get_recv_id c user_id = recv_id_by_type c.conversation_type c user_id

unfoldable pub send_mark_as_read_notification :
    Bytes → SessionType → Bytes → Bytes → List ℤ → ℤ → ReadEffect
send_mark_as_read_notification conversation_id t send_id recv_id seqs has_read_seq =
    notified send_id recv_id t record {
      mark_as_read_user_id = send_id;
      conversation_id = conversation_id;
      seqs = seqs;
      has_read_seq = has_read_seq;
    }

-- A call that changes the database: its effect stands before those of the rest, or its error ends all.
abbrev pub then_do :
    Result (Unit {0})
    → ReadEffect
    → List ReadEffect × Result (Unit {0})
    → List ReadEffect × Result (Unit {0})
then_do (err e) x rest = ([], err e)
then_do (ok u) x rest = (x ∷ rest.0, rest.1)

abbrev pub if_ok {ℓ} :
    {A : Type ℓ}
    → Result A
    → (A → List ReadEffect × Result (Unit {0}))
    → List ReadEffect × Result (Unit {0})
if_ok (err e) k = ([], err e)
if_ok (ok a) k = k a

-- An error other than redis.Nil ends the handler; with redis.Nil the number is 0.
abbrev pub or_redis_nil : Result ℤ → Result ℤ
or_redis_nil (ok s) = ok s
or_redis_nil (err e) = if is_redis_nil e then ok (pos 0) else err e

unfoldable pub set_conversation_has_read_seq :
    ReadServices → MarkReq → List ReadEffect × Result (Unit {0})
unfolding send_mark_as_read_notification
set_conversation_has_read_seq sv req = if_ok (sv.get_max_seq req.conversation_id) λ max.
    if ltb_ℤ max req.has_read_seq
    then ([], err err_args)
    else then_do sv.set_answer (set_has_read req.user_id req.conversation_id req.has_read_seq) (
      send_mark_as_read_notification req.conversation_id single_chat_type req.user_id req.user_id []
            req.has_read_seq
          ∷ [],
      ok tt,
    )

abbrev pub last_of : ℤ → List ℤ → ℤ
last_of s [] = s
last_of s (s' ∷ ss) = last_of s' ss

-- `if hasReadSeq > currentHasReadSeq` around the change of the stored number.
abbrev pub raise :
    Bool
    → Result (Unit {0})
    → ReadEffect
    → List ReadEffect × Result (Unit {0})
    → List ReadEffect × Result (Unit {0})
raise true answer x rest = then_do answer x rest
raise false answer x rest = rest

-- After the messages are marked.
unfoldable pub raise_and_notify :
    ReadServices → MarkReq → Conversation → ℤ → List ReadEffect × Result (Unit {0})
unfolding conversation_and_get_recv_id send_mark_as_read_notification
raise_and_notify sv req c has_read_seq =
    if_ok (or_redis_nil (sv.get_has_read_seq req.user_id req.conversation_id)) λ current.
      raise (ltb_ℤ current has_read_seq) sv.set_answer
        (set_has_read req.user_id req.conversation_id has_read_seq)
        (if_ok sv.callback_single_msg_read λ u. (
          send_mark_as_read_notification req.conversation_id c.conversation_type req.user_id
                (conversation_and_get_recv_id c req.user_id) req.seqs has_read_seq
              ∷ [],
          ok tt,
        ))

abbrev pub mark_up_to : ReadServices → MarkReq → ℤ → List ReadEffect × Result (Unit {0})
mark_up_to sv req has_read_seq = if_ok (sv.get_max_seq req.conversation_id) λ max.
    if ltb_ℤ max has_read_seq
    then ([], err err_args)
    else if_ok (sv.get_conversation req.user_id req.conversation_id) λ c.
      then_do sv.mark_answer (marked req.user_id req.conversation_id req.seqs)
        (raise_and_notify sv req c has_read_seq)

abbrev pub mark_all : ReadServices → MarkReq → List ℤ → List ReadEffect × Result (Unit {0})
mark_all sv req [] = ([], err err_args)
mark_all sv req (s ∷ ss) = mark_up_to sv req (last_of s ss)

unfoldable pub mark_msgs_as_read : ReadServices → MarkReq → List ReadEffect × Result (Unit {0})
unfolding raise_and_notify
mark_msgs_as_read sv req = mark_all sv req req.seqs

-- The numbers of the request that are not in the list yet, appended one by one.
unfoldable pub append_missed : List ℤ → List ℤ → List ℤ
append_missed seqs [] = seqs
append_missed seqs (s ∷ ss) =
    if contains int_discrete s seqs
    then append_missed seqs ss
    else append_missed (seqs ++ s ∷ []) ss

-- The numbers to mark in a single chat.
unfoldable pub unread_seqs : ℤ → MarkReq → List ℤ
unfolding append_missed
unread_seqs has_read_seq req =
    append_missed (seq_range (has_read_seq +ℤ pos 1) req.has_read_seq) req.seqs

abbrev pub mark_if_any :
    List ℤ
    → ReadServices
    → MarkReq
    → List ReadEffect × Result (Unit {0})
    → List ReadEffect × Result (Unit {0})
mark_if_any [] sv req rest = rest
mark_if_any (s ∷ ss) sv req rest =
    then_do sv.mark_answer (marked req.user_id req.conversation_id (s ∷ ss)) rest

-- The end of the handler in every case.
abbrev pub finish : ReadServices → List ReadEffect × Result (Unit {0})
finish sv = ([], sv.callback_group_msg_read)

-- The stored number goes up, never down, and the notification carries the larger one.
unfoldable pub raise_conversation :
    ReadServices → MarkReq → SessionType → Bytes → List ℤ → ℤ → List ReadEffect × Result (Unit {0})
unfolding send_mark_as_read_notification
raise_conversation sv req t recv_id seqs current =
    let up = ltb_ℤ current req.has_read_seq in
    raise up sv.set_answer (set_has_read req.user_id req.conversation_id req.has_read_seq) (
      send_mark_as_read_notification req.conversation_id t req.user_id recv_id seqs
            (if up then req.has_read_seq else current)
          ∷ [],
      sv.callback_group_msg_read,
    )

unfoldable pub mark_by_type :
    SessionType → ReadServices → MarkReq → Conversation → ℤ → List ReadEffect × Result (Unit {0})
unfolding unread_seqs raise_conversation conversation_and_get_recv_id
mark_by_type single_chat_type sv req c current =
    let seqs = unread_seqs current req in
    mark_if_any seqs sv req (
      raise_conversation sv req c.conversation_type (conversation_and_get_recv_id c req.user_id)
        seqs current)
mark_by_type super_group_chat_type sv req c current =
    raise_conversation sv req single_chat_type req.user_id [] current
mark_by_type notification_chat_type sv req c current =
    raise_conversation sv req single_chat_type req.user_id [] current
mark_by_type _ sv req c current = finish sv

unfoldable pub mark_conversation_as_read :
    ReadServices → MarkReq → List ReadEffect × Result (Unit {0})
unfolding mark_by_type
mark_conversation_as_read sv req = if_ok (sv.get_conversation req.user_id req.conversation_id) λ c.
    if_ok (or_redis_nil (sv.get_has_read_seq req.user_id req.conversation_id))
      λ current. mark_by_type c.conversation_type sv req c current
