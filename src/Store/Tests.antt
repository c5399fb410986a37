-- ===== src/Store/Tests.antt =====
-- Concrete documents, ranges and batches.
use open_im_server.Base.{
  ℕ, suc, ◌≡◌, ◌&&◌, refl, true, Bytes, bytes_discrete, codes, List, [], ◌∷◌, none, lookup,
  contains, ok, err, err_redis_nil, arith, ℕ_discrete,
}
use open_im_server.Base.Int.{
  ℤ, pos, negsuc, ◌-ℤ◌, ◌+ℤ◌, leb_ℤ, ltb_ℤ, int_discrete, int64, -ℤ_parts, seq_range,
}
use open_im_server.Store.Docs.{get_doc_id, get_doc_id_seqs_map}
use open_im_server.Store.Docs.Laws.{place_injective, seqs_in, with_seqs, lookup-get_doc_id_seqs_map}
use open_im_server.Store.Range.{StoredMsg, window_seqs, select_seqs, reget_seqs}
use open_im_server.Store.Range.Laws.{within, final_seq, range_seqs_iff, reget_seqs_diverges}
use open_im_server.Store.Range.{StoreServices, read_window, get_msg_by_seqs_range}
use open_im_server.Store.Range.Ends.{Answers, NoneDeletedBefore, get_msg_by_seqs_range-Answers}
use open_im_server.Store.Insert.{CacheServices, number_and_store, batch_insert_chat_to_cache}
use open_im_server.Store.Insert.Laws.{StartsAt, IsNumbered, batch_insert-IsNumbered}

-- An injective numeral: the sign, then the number itself as one byte code.
abbrev format_int : ℤ → Bytes
format_int (pos n) = n ∷ []
format_int (negsuc n) = 0 ∷ n ∷ []

format_int_injective : (a b : ℤ) → format_int a ≡ format_int b → a ≡ b
format_int_injective (pos a) (pos b) h = ground (arith)
format_int_injective (pos a) (negsuc b) h = ground (arith)
format_int_injective (negsuc a) (pos b) h = ground (arith)
format_int_injective (negsuc a) (negsuc b) h = ground (arith)

place_injective_example : ◌≡◌ {A = ℕ} 150 150
place_injective_example =
    place_injective format_int format_int_injective (codes "si_a_b") 150 150 refl refl

lookup-get_doc_id_seqs_map_example :
    lookup bytes_discrete
      (get_doc_id format_int (codes "c") (pos 101))
      (get_doc_id_seqs_map format_int (codes "c") (pos 100 ∷ pos 101 ∷ pos 102 ∷ []))
    ≡ with_seqs none (
        seqs_in format_int
          (codes "c")
          (get_doc_id format_int (codes "c") (pos 101))
          (pos 100 ∷ pos 101 ∷ pos 102 ∷ []))
lookup-get_doc_id_seqs_map_example =
    lookup-get_doc_id_seqs_map format_int (codes "c") (get_doc_id format_int (codes "c") (pos 101))
      (pos 100 ∷ pos 101 ∷ pos 102 ∷ [])

reget_seqs_diverges_example : reget_seqs 1000 (pos 8) (pos 3) (pos 9 ∷ pos 7 ∷ []) 1 1 ≡ none
unfolding ◌-ℤ◌ int_discrete ℕ_discrete
reget_seqs_diverges_example =
    reget_seqs_diverges 1000 (pos 8) (pos 3) (pos 9 ∷ pos 7 ∷ []) 1 1 (omega arith) (omega arith)
      refl

abbrev cache : CacheServices
cache = record {
  get_max_seq = λ conversation_id. err err_redis_nil;
  set_message_answer = ok tt;
  set_max_seq_answer = ok tt;
  set_has_read_seqs_answer = ok tt;
}

abbrev batch : List StoredMsg
batch =
    record { send_id = codes "a"; client_msg_id = codes "x"; seq = pos 0 }
    ∷ record { send_id = codes "b"; client_msg_id = codes "y"; seq = pos 0 }
    ∷ []

batch_insert-IsNumbered_example :
    StartsAt (cache.get_max_seq (codes "c")) (record { last_max_seq = pos 0; is_new = true })
    × IsNumbered
        (codes "c")
        batch
        (record { last_max_seq = pos 0; is_new = true })
        (batch_insert_chat_to_cache cache (codes "c") batch).0
unfolding batch_insert_chat_to_cache number_and_store
batch_insert-IsNumbered_example =
    batch_insert-IsNumbered cache (codes "c") batch (record { last_max_seq = pos 0; is_new = true })
      refl

abbrev stored : ℤ → StoredMsg
stored s = record { send_id = codes "a"; client_msg_id = codes "x"; seq = s }

-- The cache has message 4, which the user has deleted, and not message 3.
abbrev store : StoreServices
store = record {
  get_conversation_user_min_seq = λ conversation_id user_id. err err_redis_nil;
  get_min_seq = λ conversation_id. ok (pos 1);
  get_max_seq = λ conversation_id. ok (pos 4);
  get_messages_by_seq = λ conversation_id seqs. (stored (pos 4) ∷ [], pos 3 ∷ []);
  get_user_del_list = λ user_id conversation_id. ok (pos 4 ∷ []);
  find_msg_info_by_seq = λ user_id doc_id conversation_id seqs. ok (stored (pos 3) ∷ []);
  format_int = format_int;
}

range_seqs_iff_example :
    (get_msg_by_seqs_range 5 store (codes "u") (codes "c") (pos 0) (pos 9) (pos 2) (pos 0)
      ≡ read_window 5 store
          (codes "u")
          (codes "c")
          (pos 1)
          (pos 4)
          (pos 1)
          (ok (pos 3 ∷ pos 4 ∷ [])))
    × ((x : ℤ)
        → contains int_discrete x (pos 3 ∷ pos 4 ∷ [])
          ≡ leb_ℤ (pos 0) x
            && (leb_ℤ (pos 0) x && leb_ℤ (pos 1) x)
            && leb_ℤ x (pos 9)
            && (within (pos 0) x && leb_ℤ x (pos 4))
            && ltb_ℤ (final_seq (pos 9) (pos 4) -ℤ pos 2) x)
unfolding window_seqs select_seqs seq_range int64 ◌-ℤ◌ ◌+ℤ◌
range_seqs_iff_example =
    range_seqs_iff 5 store (codes "u") (codes "c") (pos 0) (pos 9) (pos 2) (pos 0) (pos 0) (pos 1)
      (pos 4) (pos 3 ∷ pos 4 ∷ []) (refl, refl, refl) (omega arith) (omega arith, omega arith) refl

none_before : NoneDeletedBefore (pos 3) (pos 4 ∷ [])
unfolding int_discrete ℕ_discrete
none_before j = ground (arith, -ℤ_parts (pos 3) (pos (suc j)))

get_msg_by_seqs_range-Answers_example :
    Answers (get_msg_by_seqs_range 2 store (codes "u") (codes "c") (pos 1) (pos 9) (pos 2) (pos 0))
unfolding window_seqs select_seqs seq_range int64 ◌-ℤ◌ ◌+ℤ◌
get_msg_by_seqs_range-Answers_example =
    get_msg_by_seqs_range-Answers store (codes "u") (codes "c") (pos 1) (pos 9) (pos 2) (pos 0)
      (pos 0) (pos 1) (pos 4) (pos 3) (pos 4 ∷ []) (pos 4 ∷ []) (refl, refl, refl) (omega arith)
      (omega arith, omega arith) refl refl none_before

-- A count near the least number of int64 wraps: the loop would start near that number.
wrapped_start : int64 ((pos 4 -ℤ negsuc 9223372036854775807) +ℤ pos 1) ≡ negsuc 9223372036854775802
unfolding int64 ◌-ℤ◌ ◌+ℤ◌
wrapped_start = refl
