-- ===== src/Store/Insert.antt =====
-- Numbering new messages: BatchInsertChat2Cache of pkg/common/db/controller/msg.go. `lenList` is compared
-- before the numbers are given. The errors of SetMessageToCache and SetMaxSeq are logged and dropped.
pub mod Laws
use open_im_server.Base.{
  ℕ, Bool, true, false, not, Bytes, bytes_discrete, List, [], ◌∷◌, Option, Map, insert, length, leb,
  ltb, if◌then◌else◌, Error, err_too_large, err_too_short, is_redis_nil, Result, ok, err,
}
use open_im_server.Base.Int.{ℤ, pos, ◌+ℤ◌}
use open_im_server.Store.Docs.{single_goc_msg_num}
use open_im_server.Store.Range.{StoredMsg}

pub record CacheServices : Type 0 where
  pub get_max_seq : Bytes → Result ℤ
  pub set_message_answer : Result (Unit {0})
  pub set_max_seq_answer : Result (Unit {0})
  pub set_has_read_seqs_answer : Result (Unit {0})

-- The calls of the cache, with their answers.
pub data CacheCall : Type 0 where
  set_message_to_cache : Bytes → List StoredMsg → CacheCall
  set_max_seq : Bytes → ℤ → CacheCall
  set_has_read_seqs : Bytes → Map Bytes ℤ → CacheCall

pub record Inserted : Type 0 where
  pub last_max_seq : ℤ
  pub is_new : Bool

abbrev pub with_number : StoredMsg → ℤ → StoredMsg
with_number m s = record { send_id = m.send_id; client_msg_id = m.client_msg_id; seq = s }

-- The loop that numbers the messages: the messages, the sender's numbers and the last number.
unfoldable pub number_msgs : ℤ → List StoredMsg → Map Bytes ℤ → List StoredMsg × Map Bytes ℤ × ℤ
number_msgs current [] seqs = ([], seqs, current)
number_msgs current (m ∷ ms) seqs =
    let next = current +ℤ pos 1 in
    let rest = number_msgs next ms (insert bytes_discrete m.send_id next seqs) in
    (with_number m next ∷ rest.0, rest.1, rest.2)

abbrev pub answer_of : Result (Unit {0}) → Inserted → Result Inserted
answer_of (ok u) i = ok i
answer_of (err e) i = err e

unfoldable pub number_and_store :
    CacheServices → Bytes → List StoredMsg → ℤ → Bool → List CacheCall × Result Inserted
unfolding number_msgs
number_and_store sv conversation_id msgs current is_new =
    let (numbered, seqs, last) = number_msgs current msgs [] in
    (
      set_message_to_cache conversation_id numbered
          ∷ set_max_seq conversation_id last
          ∷ set_has_read_seqs conversation_id seqs
          ∷ [],
      answer_of sv.set_has_read_seqs_answer record { last_max_seq = current; is_new = is_new },
    )

abbrev pub checked_length :
    CacheServices → Bytes → List StoredMsg → ℤ → Bool → List CacheCall × Result Inserted
checked_length sv conversation_id msgs current is_new =
    if ltb single_goc_msg_num (length msgs)
    then ([], err err_too_large)
    else if ltb (length msgs) 1
    then ([], err err_too_short)
    else number_and_store sv conversation_id msgs current is_new

abbrev pub from_max_seq :
    CacheServices → Bytes → List StoredMsg → Result ℤ → List CacheCall × Result Inserted
from_max_seq sv conversation_id msgs (ok current) =
    checked_length sv conversation_id msgs current false
from_max_seq sv conversation_id msgs (err e) =
    if is_redis_nil e then checked_length sv conversation_id msgs (pos 0) true else ([], err e)

unfoldable pub batch_insert_chat_to_cache :
    CacheServices → Bytes → List StoredMsg → List CacheCall × Result Inserted
unfolding number_and_store
batch_insert_chat_to_cache sv conversation_id msgs =
    from_max_seq sv conversation_id msgs (sv.get_max_seq conversation_id)
