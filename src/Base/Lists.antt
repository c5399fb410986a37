-- ===== src/Base/Lists.antt =====
-- Lists measured and indexed by native numbers, and the loops that filter them.
use Prim.Native.Nat.{ℕ, zero, suc, ◌+◌}
use mathlib.Core.Path.{◌≡◌, refl, ap}
use mathlib.Core.Bool.{Bool, true, false, ◌||◌}
use mathlib.Core.List.{List, [], ◌∷◌, ◌++◌}
use mathlib.Core.Option.{Option, none, some}
use native.Mathlib.Omega.{arith}
use open_im_server.Base.Tests.{if◌then◌else◌, dec_true}

module _ {ℓ} {A : Type ℓ} where
  abbrev pub length : List A → ℕ
  length [] = 0
  length (x ∷ xs) = suc (length xs)

  abbrev pub get_elem? : List A → ℕ → Option A
  get_elem? [] i = none
  get_elem? (x ∷ xs) zero = some x
  get_elem? (x ∷ xs) (suc i) = get_elem? xs i

  -- A loop that appends the elements that pass a test to a nil slice.
  abbrev pub keep : (A → Bool) → List A → List A
  keep p [] = []
  keep p (x ∷ xs) = if p x then x ∷ keep p xs else keep p xs

  pub keep-append : (p : A → Bool) (xs ys : List A) → keep p (xs ++ ys) ≡ keep p xs ++ keep p ys
  keep-append p [] ys = refl
  keep-append p (x ∷ xs) ys = ground (arith, keep-append p xs ys)

  pub append_one-eq : (xs ys : List A) (x : A) → xs ++ x ∷ ys ≡ (xs ++ x ∷ []) ++ ys
  append_one-eq [] ys x = refl
  append_one-eq (z ∷ xs) ys x = ap (◌∷◌ z) (append_one-eq xs ys x)

  pub length-append : (xs ys : List A) → length (xs ++ ys) ≡ length xs + length ys
  length-append [] ys = omega arith
  length-append (x ∷ xs) ys = omega (arith, length-append xs ys)

module _ {ℓ} {A : Type ℓ} (dec : Discrete A) where
  -- utils.IsContain and its like: a linear search by equality.
  abbrev pub contains : A → List A → Bool
  contains a [] = false
  contains a (x ∷ xs) = dec_true (dec a x) || contains a xs

  pub contains-append_one : (xs ys : List A) (a : A) → contains a (xs ++ a ∷ ys) ≡ true
  contains-append_one [] ys a = ground arith
  contains-append_one (x ∷ xs) ys a = ground (arith, contains-append_one xs ys a)

abbrev pub All {ℓ κ} : {A : Type ℓ} → (A → Type κ) → List A → Type κ
All P [] = Unit
All P (x ∷ xs) = P x × All P xs
