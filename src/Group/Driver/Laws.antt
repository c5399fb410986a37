-- ===== src/Group/Driver/Laws.antt =====
-- Counting the documents that pass a test through the writes of a collection.
use open_im_server.Base.{
  ℕ, ◌+◌, ◌≤◌, ◌≡◌, refl, Bool, true, false, List, [], ◌∷◌, ◌++◌, some, keep, All, arith,
}
use open_im_server.Group.Driver.{count, first, set_first, drop_first, IsUnique}

-- 1 for a document that passes.
abbrev pub unit_if : Bool → ℕ
unit_if true = 1
unit_if false = 0

module _ {D : Type 0} where
  pub count-append : (p : D → Bool) (xs ys : List D) → count p (xs ++ ys) ≡ count p xs + count p ys
  count-append p [] ys = omega arith
  count-append p (x ∷ xs) ys = ground (arith, count-append p xs ys)

  pub count-keep : (p q : D → Bool) (xs : List D) → count p (keep q xs) ≤ count p xs
  count-keep p q [] = omega arith
  count-keep p q (x ∷ xs) = ground (arith, count-keep p q xs)

  -- What a filter does not touch keeps its count.
  pub count-keep_other :
      (p q : D → Bool) (xs : List D)
      → ((d : D) → p d ≡ true → q d ≡ true)
      → count p (keep q xs) ≡ count p xs
  count-keep_other p q [] h = refl
  count-keep_other p q (x ∷ xs) h = ground (arith, count-keep_other p q xs h, h x)

  pub count-drop_first : (p q : D → Bool) (xs : List D) → count p (drop_first q xs) ≤ count p xs
  count-drop_first p q [] = omega arith
  count-drop_first p q (x ∷ xs) = ground (arith, count-drop_first p q xs)

  pub count-set_first :
      (p q : D → Bool) (f : D → D) (xs : List D) (d : D)
      → first q xs ≡ some d
      → count p (set_first q f xs) + unit_if (p d) ≡ count p xs + unit_if (p (f d))
  count-set_first p q f [] d h = ground arith
  count-set_first p q f (x ∷ xs) d h = ground (arith, count-set_first p q f xs d)

  pub first-passes : (p : D → Bool) (xs : List D) (d : D) → first p xs ≡ some d → p d ≡ true
  first-passes p [] d h = ground arith
  first-passes p (x ∷ xs) d h = ground (arith, first-passes p xs d)

  pub count-first :
      (p q : D → Bool) (xs : List D) (d : D) → first p xs ≡ some d → unit_if (q d) ≤ count q xs
  count-first p q [] d h = ground arith
  count-first p q (x ∷ xs) d h = ground (arith, count-first p q xs d)

  -- Rows that all pass.
  pub All-weaken {κ} :
      {P Q : D → Type κ} (xs : List D) → ((d : D) → P d → Q d) → All P xs → All Q xs
  All-weaken [] h a = tt
  All-weaken (x ∷ xs) h a = (h x a.0, All-weaken xs h a.1)

  pub count-keep-All :
      (p q : D → Bool) (xs : List D)
      → All (λ d. p d ≡ true → q d ≡ true) xs
      → count p (keep q xs) ≡ count p xs
  count-keep-All p q [] h = omega arith
  count-keep-All p q (x ∷ xs) h = ground (arith, count-keep-All p q xs h.1, h.0)

  pub IsUnique-tail :
      {K : Type 0} (key : K → D → Bool) (x : D) (xs : List D)
      → IsUnique key (x ∷ xs)
      → IsUnique key xs
  IsUnique-tail key x xs h k = ground (arith, h k)

  first_of_tail :
      {K : Type 0} (key : K → D → Bool) (key_of : D → K) (x : D) (xs : List D)
      → IsUnique key (x ∷ xs)
      → ((d : D) → key (key_of d) d ≡ true)
      → (d : D) → first (key (key_of d)) xs ≡ some d
      → first (key (key_of d)) (x ∷ xs) ≡ some d
  first_of_tail key key_of x xs u s d h =
      ground (arith, u (key_of d), count-first (key (key_of d)) (key (key_of d)) xs d h, s d)

  -- Under a unique index every document is the first with its key.
  pub unique_is_first :
      {K : Type 0} (key : K → D → Bool) (key_of : D → K) (xs : List D)
      → IsUnique key xs
      → ((d : D) → key (key_of d) d ≡ true)
      → All (λ d. first (key (key_of d)) xs ≡ some d) xs
  unique_is_first key key_of [] u s = tt
  unique_is_first key key_of (x ∷ xs) u s = (
    ground (arith, s x),
    All-weaken xs (first_of_tail key key_of x xs u s)
        (unique_is_first key key_of xs (IsUnique-tail key x xs u) s),
  )

  -- The writes keep a unique index, if the new rows keep their keys.
  pub keep-IsUnique :
      {K : Type 0} (key : K → D → Bool) (q : D → Bool) (xs : List D)
      → IsUnique key xs
      → IsUnique key (keep q xs)
  keep-IsUnique key q xs u k = omega (arith, u k, count-keep (key k) q xs)

  pub set_first-IsUnique :
      {K : Type 0} (key : K → D → Bool) (q : D → Bool) (f : D → D) (xs : List D) (d : D)
      → ((k : K) (a : D) → key k (f a) ≡ key k a)
      → first q xs ≡ some d
      → IsUnique key xs
      → IsUnique key (set_first q f xs)
  set_first-IsUnique key q f xs d same h u k =
      ground (arith, u k, count-set_first (key k) q f xs d h, same k d)

  -- Two documents that a test tells apart count twice.
  pub count_two :
      (p q r : D → Bool) (xs : List D) (x y : D)
      → first p xs ≡ some x
      → first q xs ≡ some y
      → q x ≡ false
      → r x ≡ true
      → r y ≡ true
      → 2 ≤ count r xs
  count_two p q r [] x y hx hy d rx ry = ground arith
  count_two p q r (z ∷ xs) x y hx hy d rx ry =
      ground (arith, count_two p q r xs x y, count-first p r xs x, count-first q r xs y)
