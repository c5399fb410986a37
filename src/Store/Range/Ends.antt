-- ===== src/Store/Range/Ends.antt =====
-- GetMsgBySeqsRange as a whole: when its search for replacements ends (pkg/common/db/controller/msg.go).
use open_im_server.Base.{
  ℕ, suc, ◌≤◌, ◌≡◌, ◌∙◌, refl, ap, Bool, false, Bytes, List, [], ◌∷◌, Option, some, length, keep,
  contains, Result, ok, arith,
}
use open_im_server.Base.Int.{ℤ, pos, ◌-ℤ◌, ◌≤ℤ◌, int_discrete}
use open_im_server.Store.Range.{
  StoredMsg, StoreServices, RangeResp, or_default, is_deleted, lower_limit, limit_max, with_regot,
  from_cache, read_window, window_seqs, get_msg_by_seqs_range,
}
use open_im_server.Store.Range.Laws.{
  NoOverflow, first_seq, final_seq, Limits, get_msg_by_seqs_range-window, reget_seqs_ends,
}

-- The read has an answer, which may be an error.
abbrev pub Answers : Option (Result RangeResp) → Type 0
Answers o = (r : Result RangeResp) × (o ≡ some r)

length-keep : (p : StoredMsg → Bool) (ms : List StoredMsg) → length (keep p ms) ≤ length ms
length-keep p [] = omega arith
length-keep p (m ∷ ms) = ground (arith, length-keep p ms)

with_regot-Answers :
    (sv : StoreServices) (user_id conversation_id : Bytes) (min max : ℤ)
    (found : List StoredMsg × List ℤ) (o : Option (List ℤ)) (seqs : List ℤ)
    → o ≡ some seqs
    → Answers (with_regot sv user_id conversation_id min max found o)
with_regot-Answers sv u c min max found o seqs e = rw e (_, refl)

-- No number before the first one of the window is deleted.
abbrev pub NoneDeletedBefore : ℤ → List ℤ → Type 0
NoneDeletedBefore s dels = (j : ℕ) → contains int_discrete (s -ℤ pos (suc j)) dels ≡ false

from_cache-Answers :
    (sv : StoreServices) (user_id conversation_id : Bytes) (min max begin new_begin : ℤ)
    (found : List StoredMsg × List ℤ) (dels : List ℤ)
    → or_default [] (sv.get_user_del_list user_id conversation_id) ≡ ok dels
    → NoneDeletedBefore new_begin dels
    → Answers
        (from_cache (suc (length found.0)) sv user_id conversation_id min max begin new_begin found)
from_cache-Answers sv u c min max begin new_begin ([], failed) dels e h = (_, refl)
from_cache-Answers sv u c min max begin new_begin (m ∷ ms, failed) dels e h =
    let count = length (keep (is_deleted dels) (m ∷ ms)) in
    let (seqs, ends) =
      reget_seqs_ends (length (m ∷ ms)) new_begin begin dels count h
        (length-keep (is_deleted dels) (m ∷ ms)) in
    rw e (with_regot-Answers sv u c min max _ _ seqs ends)

-- When `GetMsgBySeqsRange` has read the limits and selected a window that is not empty, without an
-- overflow of int64, and the user has deleted no message with a number before the window's first
-- one, it answers, with messages or an error, however many messages of the window are deleted: one
-- step of fuel more than the messages that the cache finds is enough for the search for
-- replacements.
pub get_msg_by_seqs_range-Answers :
    (sv : StoreServices) (user_id conversation_id : Bytes) (begin last num user_max u c m s : ℤ)
    (ss dels : List ℤ)
    → Limits sv user_id conversation_id u c m
    → lower_limit u c ≤ℤ last
    → NoOverflow (first_seq begin (lower_limit u c)) (final_seq last (limit_max user_max m)) num
    → window_seqs (lower_limit u c) (limit_max user_max m) begin last num ≡ ok (s ∷ ss)
    → or_default [] (sv.get_user_del_list user_id conversation_id) ≡ ok dels
    → NoneDeletedBefore s dels
    → Answers (
        get_msg_by_seqs_range
          (suc (length (sv.get_messages_by_seq conversation_id (s ∷ ss)).0))
          sv
          user_id
          conversation_id
          begin
          last
          num
          user_max)
get_msg_by_seqs_range-Answers sv id c_id begin last num user_max u c m s ss dels h low fits e d
      none =
    let found = sv.get_messages_by_seq c_id (s ∷ ss) in
    let fuel = suc (length found.0) in
    let low_seq = lower_limit u c in
    let high_seq = limit_max user_max m in
    let from = first_seq begin low_seq in
    let (r, answered) = from_cache-Answers sv id c_id low_seq high_seq from s found dels d none in
    (
      r,
      get_msg_by_seqs_range-window fuel sv id c_id begin last num user_max u c m h low
          ∙ ap (read_window fuel sv id c_id low_seq high_seq from) e
          ∙ answered,
    )
