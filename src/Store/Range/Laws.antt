-- ===== src/Store/Range/Laws.antt =====
-- Which numbers a range read selects, and when its search for replacements ends.
use open_im_server.Base.{
  ℕ, zero, suc, ◌+◌, ◌≤◌, ◌<◌, ◌≡◌, ◌≢◌, refl, ap, ◌∙◌, Bytes, Bool, true, false, ◌&&◌, List, none,
  some, contains, if◌then◌else◌, ok, arith, inl, inr, Bool-cases, Option-cases,
}
use open_im_server.Base.Int.{
  ℤ, pos, negsuc, ◌+ℤ◌, ◌-ℤ◌, leb_ℤ, ltb_ℤ, ◌≤ℤ◌, int_discrete, contains-seq_range, FitsInt64,
  int64_fits, +ℤ_parts, -ℤ_parts,
}
use open_im_server.Store.Range.{
  StoreServices, or_default, lower_limit, limit_max, read_window, get_msg_by_seqs_range,
  select_seqs, window_seqs, reget_seqs,
}

-- The sums of `end-begin+1` and `end-num+1` are those of int64.
abbrev pub NoOverflow : ℤ → ℤ → ℤ → Type 0
NoOverflow begin last num =
    FitsInt64 ((last -ℤ begin) +ℤ pos 1) × FitsInt64 ((last -ℤ num) +ℤ pos 1)

-- The selected numbers are those from `begin` to `last` among the newest `num`.
contains-select_seqs :
    (x begin last num : ℤ)
    → NoOverflow begin last num
    → contains int_discrete x (select_seqs begin last num)
      ≡ leb_ℤ begin x && leb_ℤ x last && ltb_ℤ (last -ℤ num) x
unfolding select_seqs
contains-select_seqs x begin last num fits =
    rw (int64_fits _ fits.0, int64_fits _ fits.1)
      (elim (Bool-cases (leb_ℤ ((last -ℤ begin) +ℤ pos 1) num)) [
        | inl e ↦
            rw (e, contains-seq_range x begin last)
              (ground
                (arith, +ℤ_parts (last -ℤ begin) (pos 1), -ℤ_parts last begin, -ℤ_parts last num))
        | inr e ↦
            rw (e, contains-seq_range x ((last -ℤ num) +ℤ pos 1) last)
              (ground (
                arith,
                +ℤ_parts (last -ℤ begin) (pos 1),
                +ℤ_parts (last -ℤ num) (pos 1),
                -ℤ_parts last begin,
                -ℤ_parts last num,
              ))
      ])

-- The ends of the window before the newest `num` are taken.
abbrev pub first_seq : ℤ → ℤ → ℤ
first_seq begin min = if ltb_ℤ begin min then min else begin

abbrev pub final_seq : ℤ → ℤ → ℤ
final_seq last max = if ltb_ℤ max last then max else last

window_seqs_iff :
    (x min max begin last num : ℤ) (seqs : List ℤ)
    → NoOverflow (first_seq begin min) (final_seq last max) num
    → window_seqs min max begin last num ≡ ok seqs
    → contains int_discrete x seqs
      ≡ leb_ℤ begin x
        && leb_ℤ min x
        && leb_ℤ x last
        && leb_ℤ x max
        && ltb_ℤ (final_seq last max -ℤ num) x
unfolding window_seqs
window_seqs_iff x min max begin last num seqs fits h =
    let first = first_seq begin min in
    let final = final_seq last max in
    let e : select_seqs first final num ≡ seqs = ground (arith) in
    rw (← e, contains-select_seqs x first final num fits) (ground (arith))

-- The highest number that the caller sets, where 0 sets none.
abbrev pub within : ℤ → ℤ → Bool
within (pos zero) x = true
within user_max x = leb_ℤ x user_max

leb-lower_limit : (u c x : ℤ) → leb_ℤ (lower_limit u c) x ≡ (leb_ℤ u x && leb_ℤ c x)
leb-lower_limit u c x = ground arith

leb-limit_max :
    (user_max max x : ℤ) → leb_ℤ x (limit_max user_max max) ≡ (within user_max x && leb_ℤ x max)
leb-limit_max (pos zero) max x = refl
leb-limit_max (pos (suc n)) max x = ground arith
leb-limit_max (negsuc n) max x = ground arith

-- What the range read has found of the limits: the user's lower one, the conversation's lower one and its
-- highest number, each 0 where there is none.
abbrev pub Limits : StoreServices → Bytes → Bytes → ℤ → ℤ → ℤ → Type 0
Limits sv user_id conversation_id user_min conversation_min conversation_max =
    (or_default (pos 0) (sv.get_conversation_user_min_seq conversation_id user_id) ≡ ok user_min)
    × (or_default (pos 0) (sv.get_min_seq conversation_id) ≡ ok conversation_min)
    × (or_default (pos 0) (sv.get_max_seq conversation_id) ≡ ok conversation_max)

pub get_msg_by_seqs_range-window :
    (fuel : ℕ) (sv : StoreServices) (user_id conversation_id : Bytes)
    (begin last num user_max u c m : ℤ)
    → Limits sv user_id conversation_id u c m
    → lower_limit u c ≤ℤ last
    → get_msg_by_seqs_range fuel sv user_id conversation_id begin last num user_max
      ≡ read_window fuel sv user_id conversation_id
          (lower_limit u c)
          (limit_max user_max m)
          (first_seq begin (lower_limit u c))
          (window_seqs (lower_limit u c) (limit_max user_max m) begin last num)
unfolding get_msg_by_seqs_range
get_msg_by_seqs_range-window fuel sv user_id conversation_id begin last num user_max u c m h low =
    let here : ltb_ℤ last (lower_limit u c) ≡ false = ground (arith, low) in
    rw (h.0, h.1, h.2, here) refl

-- When `GetMsgBySeqsRange` has read the two lower limits and the highest number, the end is not
-- below both lower limits' larger one and a window is selected without an overflow of int64, it
-- reads on with that window. A number lies in it exactly if the caller asks for it, it is below
-- neither the user's limit nor the conversation's, it exceeds neither the highest number nor the
-- caller's one (0 is none), and it is among the newest `num` of the numbers up to the end.
pub range_seqs_iff :
    (fuel : ℕ) (sv : StoreServices) (user_id conversation_id : Bytes)
    (begin last num user_max u c m : ℤ) (seqs : List ℤ)
    → Limits sv user_id conversation_id u c m
    → lower_limit u c ≤ℤ last
    → NoOverflow (first_seq begin (lower_limit u c)) (final_seq last (limit_max user_max m)) num
    → window_seqs (lower_limit u c) (limit_max user_max m) begin last num ≡ ok seqs
    → (get_msg_by_seqs_range fuel sv user_id conversation_id begin last num user_max
        ≡ read_window fuel sv user_id conversation_id
            (lower_limit u c)
            (limit_max user_max m)
            (first_seq begin (lower_limit u c))
            (ok seqs))
      × ((x : ℤ)
          → contains int_discrete x seqs
            ≡ leb_ℤ begin x
              && (leb_ℤ u x && leb_ℤ c x)
              && leb_ℤ x last
              && (within user_max x && leb_ℤ x m)
              && ltb_ℤ (final_seq last (limit_max user_max m) -ℤ num) x)
range_seqs_iff fuel sv user_id conversation_id begin last num user_max u c m seqs h low fits e = (
  get_msg_by_seqs_range-window fuel sv user_id conversation_id begin last num user_max u c m h low
      ∙ ap
          (read_window fuel sv user_id conversation_id (lower_limit u c) (limit_max user_max m)
            (first_seq begin (lower_limit u c)))
          e,
  λ x.
      rw (← leb-lower_limit u c x, ← leb-limit_max user_max m x)
        (window_seqs_iff x (lower_limit u c) (limit_max user_max m) begin last num seqs fits e),
)

-- If a replacement is still wanted and the next candidate is deleted and lies in the range, the
-- search for replacements never ends: it tries the same candidate again and again, whatever the
-- fuel.
pub reget_seqs_diverges :
    (fuel : ℕ) (new_begin begin : ℤ) (del_seqs : List ℤ) (count i : ℕ)
    → i ≤ count
    → begin ≤ℤ new_begin -ℤ pos i
    → contains int_discrete (new_begin -ℤ pos i) del_seqs ≡ true
    → reget_seqs fuel new_begin begin del_seqs count i ≡ none
unfolding reget_seqs
reget_seqs_diverges zero nb b del count i h hb hd = refl
reget_seqs_diverges (suc fuel) nb b del count i h hb hd =
    ground (arith, reget_seqs_diverges fuel nb b del count i h hb hd)

reget_seqs_not_none :
    (steps : ℕ) (new_begin begin : ℤ) (del_seqs : List ℤ) (count i : ℕ)
    (none_deleted : (j : ℕ) → contains int_discrete (new_begin -ℤ pos (suc j)) del_seqs ≡ false)
    → count < suc i + steps
    → reget_seqs (suc steps) new_begin begin del_seqs count (suc i) ≢ none
unfolding reget_seqs
reget_seqs_not_none zero nb b del count i h e = ground arith
reget_seqs_not_none (suc steps) nb b del count i h e =
    ground (arith, h i, reget_seqs_not_none steps nb b del count (suc i) h)

-- If no candidate is deleted, the search for replacements ends within one step more than there are
-- deleted messages.
pub reget_seqs_ends :
    (steps : ℕ) (new_begin begin : ℤ) (del_seqs : List ℤ) (count : ℕ)
    (none_deleted : (j : ℕ) → contains int_discrete (new_begin -ℤ pos (suc j)) del_seqs ≡ false)
    → count ≤ steps
    → (seqs : List ℤ) × (reget_seqs (suc steps) new_begin begin del_seqs count 1 ≡ some seqs)
reget_seqs_ends steps nb b del count h enough =
    elim (Option-cases (reget_seqs (suc steps) nb b del count 1)) [
      | inl e ↦ absurd (reget_seqs_not_none steps nb b del count 0 h (omega arith) e)
      | inr found ↦ found
    ]
