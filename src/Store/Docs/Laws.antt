-- ===== src/Store/Docs/Laws.antt =====
-- Documents and the positions in them (pkg/common/db/table/unrelation/msg.go).
use open_im_server.Base.{
  ℕ, suc, ◌/◌, ◌%◌, ◌≡◌, refl, sym, ap, ◌∙◌, Bytes, bytes_discrete, codes, List, [], ◌∷◌, ◌++◌,
  Option, none, some, Map, lookup, insert, lookup-insert, keep, dec_true, arith, ite, append_one-eq,
  if◌then◌else◌,
}
use open_im_server.Base.Int.{ℤ, pos, ◌-ℤ◌}
use open_im_server.Store.Docs.{
  quotient, remainder, index_gen, get_doc_id, get_msg_index, with_seq, add_seqs,
  get_doc_id_seqs_map,
}

-- For a positive number, the suffix of its document and its position in it, and back.
seq_position :
    (n : ℕ)
    → (get_msg_index (pos (suc n)) ≡ pos (n % 100))
      × (quotient (pos (suc n) -ℤ pos 1) 100 ≡ pos (n / 100))
unfolding get_msg_index ◌-ℤ◌
seq_position n =
    let e : pos (suc n) -ℤ pos 1 ≡ pos n = ground arith in
    (ap (λ i. remainder i 100) e, ap (λ i. quotient i 100) e)

append_cancel : (xs ys zs : Bytes) → xs ++ ys ≡ xs ++ zs → ys ≡ zs
append_cancel [] ys zs h = h
append_cancel (x ∷ xs) ys zs h = append_cancel xs ys zs (ground (arith))

-- Two messages of one conversation with positive numbers never share a place: equal documents and
-- equal positions come from equal numbers, if numbers are printed injectively.
pub place_injective :
    (format_int : ℤ → Bytes) (format_injective : (a b : ℤ) → format_int a ≡ format_int b → a ≡ b)
    (conversation_id : Bytes) (m n : ℕ)
    → get_doc_id format_int conversation_id (pos (suc m))
      ≡ get_doc_id format_int conversation_id (pos (suc n))
    → get_msg_index (pos (suc m)) ≡ get_msg_index (pos (suc n))
    → m ≡ n
unfolding get_doc_id index_gen
place_injective format_int format_injective conversation_id m n doc index =
    let formatted = append_cancel (codes ":") _ _ (append_cancel conversation_id _ _ doc) in
    let suffix = format_injective _ _ formatted in
    let quotients : pos (m / 100) ≡ pos (n / 100) =
      sym (seq_position m).1 ∙ suffix ∙ (seq_position n).1 in
    let remainders : pos (m % 100) ≡ pos (n % 100) =
      sym (seq_position m).0 ∙ index ∙ (seq_position n).0 in
    ground (arith, quotients, remainders)

-- The numbers of one document.
abbrev pub seqs_in : (ℤ → Bytes) → Bytes → Bytes → List ℤ → List ℤ
seqs_in format_int conversation_id doc_id seqs =
    keep (λ s. dec_true (bytes_discrete (get_doc_id format_int conversation_id s) doc_id)) seqs

abbrev pub with_seqs : Option (List ℤ) → List ℤ → Option (List ℤ)
with_seqs none [] = none
with_seqs none (s ∷ ss) = some (s ∷ ss)
with_seqs (some l) ss = some (l ++ ss)

with_seqs-with_seq :
    (o : Option (List ℤ)) (s : ℤ) (ss : List ℤ)
    → with_seqs (some (with_seq o s)) ss ≡ with_seqs o (s ∷ ss)
with_seqs-with_seq none s ss = refl
with_seqs-with_seq (some l) s ss = ap some (sym (append_one-eq l ss s))

append_nil : (l : List ℤ) → l ++ [] ≡ l
append_nil [] = refl
append_nil (x ∷ l) = ap (◌∷◌ x) (append_nil l)

with_seqs-none : (o : Option (List ℤ)) → o ≡ with_seqs o []
with_seqs-none none = refl
with_seqs-none (some l) = ap some (sym (append_nil l))

lookup-add_seqs :
    (format_int : ℤ → Bytes) (conversation_id doc_id : Bytes) (seqs : List ℤ)
    (t : Map Bytes (List ℤ))
    → lookup bytes_discrete doc_id (add_seqs format_int conversation_id seqs t)
      ≡ with_seqs (lookup bytes_discrete doc_id t) (seqs_in format_int conversation_id doc_id seqs)
unfolding add_seqs
lookup-add_seqs f c d [] t = with_seqs-none (lookup bytes_discrete d t)
lookup-add_seqs f c d (s ∷ ss) t =
    let doc = get_doc_id f c s in
    rw
      (
        lookup-add_seqs f c d ss
            (insert bytes_discrete doc (with_seq (lookup bytes_discrete doc t) s) t),
        lookup-insert bytes_discrete doc d (with_seq (lookup bytes_discrete doc t) s) t,
      )
      (split (bytes_discrete doc d))
  where
    split :
        (q : Dec (get_doc_id f c s ≡ d))
        → with_seqs
            (ite q
              (some (with_seq (lookup bytes_discrete (get_doc_id f c s) t) s))
              (lookup bytes_discrete d t))
            (seqs_in f c d ss)
          ≡ with_seqs
              (lookup bytes_discrete d t)
              (if dec_true q then s ∷ seqs_in f c d ss else seqs_in f c d ss)
    split (yes e) = rw (e) (with_seqs-with_seq (lookup bytes_discrete d t) s (seqs_in f c d ss))
    split (no n) = refl

-- The map of the documents gives for each document exactly the numbers of the list that lie in it,
-- in their order, and has no entry for a document without a number.
pub lookup-get_doc_id_seqs_map :
    (format_int : ℤ → Bytes) (conversation_id doc_id : Bytes) (seqs : List ℤ)
    → lookup bytes_discrete doc_id (get_doc_id_seqs_map format_int conversation_id seqs)
      ≡ with_seqs none (seqs_in format_int conversation_id doc_id seqs)
unfolding get_doc_id_seqs_map lookup
lookup-get_doc_id_seqs_map f c d seqs = lookup-add_seqs f c d seqs []
