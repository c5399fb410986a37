-- ===== src/Group/Memory.antt =====
-- A collection that is kept in memory, as an instance of what the service relies on.
use open_im_server.Base.{
  ◌≡◌, refl, Bool, true, false, not, ◌&&◌, ◌||◌, List, [], ◌∷◌, ◌++◌, Option, none, some, keep,
  if◌then◌else◌, err_upstream, err_record_not_found, Result, ok, err, inl, inr, Bool-cases, arith,
}
use mathlib.Core.Path.{subst}
use open_im_server.Group.Driver.{Driver, DriverLaws, IsUnique, count, first, set_first, drop_first}

-- No two documents stand for the same key.
abbrev any_same : {D : Type 0} → (D → D → Bool) → D → List D → Bool
any_same same x [] = false
any_same same x (y ∷ ys) = same x y || any_same same x ys

abbrev pub all_apart : {D : Type 0} → (D → D → Bool) → List D → Bool
all_apart same [] = true
all_apart same (x ∷ xs) = not (any_same same x xs) && all_apart same xs

abbrev found : {D : Type 0} → Option D → Result D
found none = err err_record_not_found
found (some d) = ok d

abbrev changed : {D : Type 0} → Option D → List D → Result (List D)
changed none xs = err err_record_not_found
changed (some d) xs = ok xs

abbrev pub memory : {D : Type 0} → (D → D → Bool) → Driver D
memory same = record {
  insert_many =
      λ ds xs. if all_apart same (xs ++ ds) then ok (xs ++ ds) else err (err_upstream 11000);
  delete_many = λ p xs. ok (keep (λ d. not (p d)) xs);
  delete_one = λ p xs. ok (drop_first p xs);
  update_one = λ p f xs. changed (first p xs) (set_first p f xs);
  find_one = λ p xs. found (first p xs);
  find = λ p xs. ok (keep p xs);
  count_documents = λ p xs. ok (count p xs);
}

module _ {D K : Type 0} (key : K → D → Bool) (same : D → D → Bool)
    (compat : (k : K) (x y : D) → key k x ≡ true → key k y ≡ true → same x y ≡ true) where
  none_same :
      (k : K) (x : D) (ys : List D)
      → key k x ≡ true
      → any_same same x ys ≡ false
      → count (key k) ys ≡ 0
  none_same k x [] h n = omega arith
  none_same k x (y ∷ ys) h n = ground (arith, none_same k x ys h, compat k x y h)

  pub apart-IsUnique : (xs : List D) → all_apart same xs ≡ true → IsUnique key xs
  apart-IsUnique [] h k = omega arith
  apart-IsUnique (x ∷ xs) h k = elim (Bool-cases (key k x)) [
    | inl t ↦ ground (arith, none_same k x xs t)
    | inr f ↦ let rest = apart-IsUnique xs (ground arith) k in ground (arith, rest)
  ]

  inserted :
      (ys zs : List D)
      → (if all_apart same ys then ok ys else err (err_upstream 11000)) ≡ ok zs
      → (zs ≡ ys) × IsUnique key zs
  inserted ys zs h = elim (Bool-cases (all_apart same ys)) [
    | inl t ↦ (ground arith, subst (IsUnique key) (ground arith) (apart-IsUnique ys t))
    | inr f ↦ ground arith
  ]

  changed_found :
      (o : Option D) (xs ys : List D) → changed o xs ≡ ok ys → (ys ≡ xs) × ((d : D) × (o ≡ some d))
  changed_found none xs ys h = ground arith
  changed_found (some d) xs ys h = (ground arith, (d, refl))

  found-ok : (o : Option D) (d : D) → found o ≡ ok d → o ≡ some d
  found-ok none d h = ground arith
  found-ok (some x) d h = ground arith

  found_absent : (o : Option D) → found o ≡ err err_record_not_found → o ≡ none
  found_absent none h = refl
  found_absent (some x) h = ground arith

  pub memory-DriverLaws : DriverLaws key (memory same)
  memory-DriverLaws = record {
    insert_many-ok = λ ds xs ys h. inserted (xs ++ ds) ys h;
    delete_many-ok = λ p xs ys h. ground arith;
    delete_one-ok = λ p xs ys h. ground arith;
    update_one-ok = λ p f xs ys h. changed_found (first p xs) (set_first p f xs) ys h;
    find_one-ok = λ p xs d h. found-ok (first p xs) d h;
    find_one-absent = λ p xs h. found_absent (first p xs) h;
    find-ok = λ p xs ys h. ground arith;
  }
