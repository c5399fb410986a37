-- ===== src/Store/Docs.antt =====
-- How sequence numbers are spread over documents of 100 messages (pkg/common/db/table/unrelation/msg.go).
-- strconv.FormatInt is a parameter, `format_int`.
pub mod Laws
use open_im_server.Base.{
  ℕ, zero, suc, ◌+◌, ◌/◌, ◌%◌, Bytes, bytes_discrete, codes, List, [], ◌∷◌, ◌++◌, Option, none,
  some, Map, lookup, insert,
}
use open_im_server.Base.Int.{ℤ, pos, negsuc, ◌-ℤ◌}

abbrev pub single_goc_msg_num : ℕ
single_goc_msg_num = 100

abbrev pub negated : ℕ → ℤ
negated zero = pos 0
negated (suc n) = negsuc n

-- Go's division and remainder go towards 0.
abbrev pub quotient : ℤ → ℕ → ℤ
quotient (pos n) d = pos (n / d)
quotient (negsuc n) d = negated (suc n / d)

abbrev pub remainder : ℤ → ℕ → ℤ
remainder (pos n) d = pos (n % d)
remainder (negsuc n) d = negated (suc n % d)

unfoldable pub index_gen : (ℤ → Bytes) → Bytes → ℤ → Bytes
index_gen format_int conversation_id seq_suffix =
    conversation_id ++ (codes ":" ++ format_int seq_suffix)

unfoldable pub get_doc_id : (ℤ → Bytes) → Bytes → ℤ → Bytes
unfolding index_gen
get_doc_id format_int conversation_id seq =
    index_gen format_int conversation_id (quotient (seq -ℤ pos 1) single_goc_msg_num)

unfoldable pub get_msg_index : ℤ → ℤ
get_msg_index seq = remainder (seq -ℤ pos 1) single_goc_msg_num

-- The list of a document, with one more number.
abbrev pub with_seq : Option (List ℤ) → ℤ → List ℤ
with_seq none seq = seq ∷ []
with_seq (some seqs) seq = seqs ++ seq ∷ []

unfoldable pub add_seqs : (ℤ → Bytes) → Bytes → List ℤ → Map Bytes (List ℤ) → Map Bytes (List ℤ)
unfolding get_doc_id
add_seqs format_int conversation_id [] t = t
add_seqs format_int conversation_id (seq ∷ seqs) t =
    let doc_id = get_doc_id format_int conversation_id seq in
    add_seqs format_int conversation_id seqs
      (insert bytes_discrete doc_id (with_seq (lookup bytes_discrete doc_id t) seq) t)

unfoldable pub get_doc_id_seqs_map : (ℤ → Bytes) → Bytes → List ℤ → Map Bytes (List ℤ)
unfolding add_seqs
get_doc_id_seqs_map format_int conversation_id seqs = add_seqs format_int conversation_id seqs []
