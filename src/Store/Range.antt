-- ===== src/Store/Range.antt =====
-- Reading messages by their numbers: GetMsgBySeqsRange, GetMsgBySeqs, getMsgBySeqs and getMsgBySeqsRange of
-- pkg/common/db/controller/msg.go. The cache, and the documents of MongoDB (findMsgInfoBySeq), are
-- parameters. An error of the cache when it reads messages is logged and dropped.
pub mod Laws
pub mod Ends
use open_im_server.Base.{
  ℕ, zero, suc, ◌+◌, Bool, true, false, not, ◌&&◌, Bytes, List, [], ◌∷◌, ◌++◌, Option, none, some,
  Map, length, keep, contains, if◌then◌else◌, Error, err_args, Result, ok, err, ◌>>=◌, ◌>>◌,
  require, is_redis_nil,
}
use open_im_server.Base.Int.{
  ℤ, pos, negsuc, ◌+ℤ◌, ◌-ℤ◌, leb_ℤ, ltb_ℤ, int64, seq_range, int_discrete,
}
use open_im_server.Store.Docs.{get_doc_id_seqs_map}

-- The part of sdkws.MsgData that is read here.
pub record StoredMsg : Type 0 where
  pub send_id : Bytes
  pub client_msg_id : Bytes
  pub seq : ℤ

pub record StoreServices : Type 0 where
  pub get_conversation_user_min_seq : Bytes → Bytes → Result ℤ
  pub get_min_seq : Bytes → Result ℤ
  pub get_max_seq : Bytes → Result ℤ
  -- the messages that the cache has, and the numbers that it has not
  pub get_messages_by_seq : Bytes → List ℤ → List StoredMsg × List ℤ
  pub get_user_del_list : Bytes → Bytes → Result (List ℤ)
  -- findMsgInfoBySeq: user, document, conversation and numbers
  pub find_msg_info_by_seq : Bytes → Bytes → Bytes → List ℤ → Result (List StoredMsg)
  pub format_int : ℤ → Bytes

pub record RangeResp : Type 0 where
  pub min_seq : ℤ
  pub max_seq : ℤ
  pub msgs : List StoredMsg

abbrev pub no_msgs : RangeResp
no_msgs = record { min_seq = pos 0; max_seq = pos 0; msgs = [] }

-- With redis.Nil the zero value is used.
abbrev pub or_default {ℓ} : {A : Type ℓ} → A → Result A → Result A
or_default d (ok s) = ok s
or_default d (err e) = if is_redis_nil e then ok d else err e

unfoldable pub find_docs :
    StoreServices → Bytes → Bytes → Map Bytes (List ℤ) → Result (List StoredMsg)
find_docs sv user_id conversation_id [] = ok []
find_docs sv user_id conversation_id ((doc_id, seqs) ∷ docs) = do
  msgs ← sv.find_msg_info_by_seq user_id doc_id conversation_id seqs
  rest ← find_docs sv user_id conversation_id docs
  ok (msgs ++ rest)

-- getMsgBySeqs and getMsgBySeqsRange. They differ in what they log, and in that the second copies a flag of
-- the stored message (`IsRead`) that is not modelled.
unfoldable pub get_msg_by_seqs_db : StoreServices → Bytes → Bytes → List ℤ → Result (List StoredMsg)
unfolding find_docs
get_msg_by_seqs_db sv user_id conversation_id seqs =
    find_docs sv user_id conversation_id (get_doc_id_seqs_map sv.format_int conversation_id seqs)

-- `end` is the last of the numbers that may be read, and `num` how many at most. The sums are
-- those of int64.
unfoldable pub select_seqs : ℤ → ℤ → ℤ → List ℤ
select_seqs begin last num =
    if leb_ℤ (int64 ((last -ℤ begin) +ℤ pos 1)) num
    then seq_range begin last
    else seq_range (int64 ((last -ℤ num) +ℤ pos 1)) last

-- The larger one of the two lower limits.
abbrev pub lower_limit : ℤ → ℤ → ℤ
lower_limit user_min conversation_min =
    if ltb_ℤ conversation_min user_min then user_min else conversation_min

abbrev pub limit_max : ℤ → ℤ → ℤ
limit_max (pos zero) max = max
limit_max user_max max = if ltb_ℤ user_max max then user_max else max

-- The numbers to read, from the limits of the user and of the conversation.
unfoldable pub window_seqs : ℤ → ℤ → ℤ → ℤ → ℤ → Result (List ℤ)
unfolding select_seqs
window_seqs min max begin last num =
    let first = if ltb_ℤ begin min then min else begin in
    let final = if ltb_ℤ max last then max else last in
    if ltb_ℤ final first then err err_args else ok (select_seqs first final num)

-- The loop that looks for a number in place of each deleted one. The counter grows only when one is found.
-- `none` is a loop that has not ended when the fuel has.
unfoldable pub reget_seqs : ℕ → ℤ → ℤ → List ℤ → ℕ → ℕ → Option (List ℤ)
reget_seqs zero new_begin begin del_seqs count i = none
reget_seqs (suc fuel) new_begin begin del_seqs count i = elim (leb_ℤ (pos i) (pos count)) [
  | false ↦ some []
  | true ↦ elim (leb_ℤ begin (new_begin -ℤ pos i)) [
    | false ↦ some []
    | true ↦ elim (contains int_discrete (new_begin -ℤ pos i) del_seqs) [
      | true ↦ reget_seqs fuel new_begin begin del_seqs count i
      | false ↦ elim (reget_seqs fuel new_begin begin del_seqs count (suc i)) [
        | none ↦ none
        | some seqs ↦ some ((new_begin -ℤ pos i) ∷ seqs)
      ]
    ]
  ]
]

-- What the cache does not have is read from the database.
abbrev pub complete :
    StoreServices → Bytes → Bytes → ℤ → ℤ → List StoredMsg → List ℤ → Result RangeResp
complete sv user_id conversation_id min max success [] =
    ok record { min_seq = min; max_seq = max; msgs = success }
complete sv user_id conversation_id min max success (s ∷ ss) = do
  mongo_msgs ← get_msg_by_seqs_db sv user_id conversation_id (s ∷ ss)
  ok record { min_seq = min; max_seq = max; msgs = mongo_msgs ++ success }

-- The messages in place of the deleted ones.
abbrev pub refill :
    StoreServices → Bytes → List ℤ → List StoredMsg × List ℤ → List StoredMsg × List ℤ
refill sv conversation_id [] found = found
refill sv conversation_id (s ∷ ss) found =
    let again = sv.get_messages_by_seq conversation_id (s ∷ ss) in
    (found.0 ++ again.0, found.1 ++ again.1)

abbrev pub is_deleted : List ℤ → StoredMsg → Bool
is_deleted del_seqs m = contains int_discrete m.seq del_seqs

abbrev pub with_regot :
    StoreServices
    → Bytes
    → Bytes
    → ℤ
    → ℤ
    → List StoredMsg × List ℤ
    → Option (List ℤ)
    → Option (Result RangeResp)
with_regot sv user_id conversation_id min max found none = none
with_regot sv user_id conversation_id min max found (some again) =
    let all = refill sv conversation_id again found in
    some (complete sv user_id conversation_id min max all.0 all.1)

abbrev pub without_deleted :
    ℕ
    → StoreServices
    → Bytes
    → Bytes
    → ℤ
    → ℤ
    → ℤ
    → ℤ
    → List StoredMsg × List ℤ
    → Result (List ℤ)
    → Option (Result RangeResp)
without_deleted fuel sv user_id conversation_id min max begin new_begin found (err e) = some (err e)
without_deleted fuel sv user_id conversation_id min max begin new_begin found (ok del_seqs) =
    with_regot sv user_id conversation_id min max
      (keep (λ m. not (is_deleted del_seqs m)) found.0, found.1)
      (reget_seqs fuel new_begin begin del_seqs (length (keep (is_deleted del_seqs) found.0)) 1)

-- From the answer of the cache; with no message in it, nothing is deleted.
abbrev pub from_cache :
    ℕ
    → StoreServices
    → Bytes
    → Bytes
    → ℤ
    → ℤ
    → ℤ
    → ℤ
    → List StoredMsg × List ℤ
    → Option (Result RangeResp)
from_cache fuel sv user_id conversation_id min max begin new_begin ([], failed) =
    some (complete sv user_id conversation_id min max [] failed)
from_cache fuel sv user_id conversation_id min max begin new_begin (m ∷ ms, failed) =
    without_deleted fuel sv user_id conversation_id min max begin new_begin (m ∷ ms, failed)
      (or_default [] (sv.get_user_del_list user_id conversation_id))

abbrev pub read_window :
    ℕ → StoreServices → Bytes → Bytes → ℤ → ℤ → ℤ → Result (List ℤ) → Option (Result RangeResp)
read_window fuel sv user_id conversation_id min max begin (err e) = some (err e)
read_window fuel sv user_id conversation_id min max begin (ok []) = some (ok no_msgs)
read_window fuel sv user_id conversation_id min max begin (ok (s ∷ ss)) =
    from_cache fuel sv user_id conversation_id min max begin s
      (sv.get_messages_by_seq conversation_id (s ∷ ss))

abbrev pub if_read {ℓ} :
    {A : Type ℓ} → Result A → (A → Option (Result RangeResp)) → Option (Result RangeResp)
if_read (err e) k = some (err e)
if_read (ok a) k = k a

unfoldable pub get_msg_by_seqs_range :
    ℕ → StoreServices → Bytes → Bytes → ℤ → ℤ → ℤ → ℤ → Option (Result RangeResp)
unfolding window_seqs reget_seqs get_msg_by_seqs_db
get_msg_by_seqs_range fuel sv user_id conversation_id begin last num user_max =
    if_read (or_default (pos 0) (sv.get_conversation_user_min_seq conversation_id user_id))
      λ user_min. if_read (or_default (pos 0) (sv.get_min_seq conversation_id)) λ conversation_min.
        let min = lower_limit user_min conversation_min in
        if ltb_ℤ last min
        then some (ok no_msgs)
        else if_read (or_default (pos 0) (sv.get_max_seq conversation_id)) λ conversation_max.
          let max = limit_max user_max conversation_max in
          read_window fuel sv user_id conversation_id min max
            (if ltb_ℤ begin min then min else begin) (window_seqs min max begin last num)

-- The numbers of GetMsgBySeqs that are read: here the smaller one of the two lower limits counts.
unfoldable pub allowed_seqs : ℤ → ℤ → ℤ → List ℤ → List ℤ
allowed_seqs user_min min max seqs =
    let low = if ltb_ℤ user_min min then user_min else min in
    keep (λ s. leb_ℤ low s && leb_ℤ s max) seqs

abbrev pub append_db :
    StoreServices → Bytes → Bytes → ℤ → ℤ → List StoredMsg × List ℤ → Result RangeResp
append_db sv user_id conversation_id min max (success, []) =
    ok record { min_seq = min; max_seq = max; msgs = success }
append_db sv user_id conversation_id min max (success, s ∷ ss) = do
  mongo_msgs ← get_msg_by_seqs_db sv user_id conversation_id (s ∷ ss)
  ok record { min_seq = min; max_seq = max; msgs = success ++ mongo_msgs }

unfoldable pub get_msg_by_seqs : StoreServices → Bytes → Bytes → List ℤ → Result RangeResp
unfolding allowed_seqs get_msg_by_seqs_db
get_msg_by_seqs sv user_id conversation_id seqs = do
  user_min ← or_default (pos 0) (sv.get_conversation_user_min_seq conversation_id user_id)
  min ← or_default (pos 0) (sv.get_min_seq conversation_id)
  max ← or_default (pos 0) (sv.get_max_seq conversation_id)
  append_db sv user_id conversation_id (if ltb_ℤ user_min min then user_min else min) max
      (sv.get_messages_by_seq conversation_id (allowed_seqs user_min min max seqs))
