-- ===== src/Group/Driver.antt =====
-- A collection of MongoDB behind github.com/OpenIMSDK/tools/mgoutil, which is a parameter: its documents are a
-- list, in natural order, a filter is a test, `$set` is a function. What the code relies on is `DriverLaws`.
pub mod Laws
use open_im_server.Base.{
  ℕ, zero, suc, ◌+◌, ◌≤◌, ◌≡◌, Bool, true, false, not, List, [], ◌∷◌, ◌++◌, Option, none, some,
  keep, if◌then◌else◌, err_record_not_found, Result, ok, err,
}

pub record Driver (D : Type 0) : Type 0 where
  -- an operation that succeeds gives the documents after it
  pub insert_many : List D → List D → Result (List D)
  pub delete_many : (D → Bool) → List D → Result (List D)
  pub delete_one : (D → Bool) → List D → Result (List D)
  -- UpdateOne with `notMatchedErr`
  pub update_one : (D → Bool) → (D → D) → List D → Result (List D)
  pub find_one : (D → Bool) → List D → Result D
  pub find : (D → Bool) → List D → Result (List D)
  pub count_documents : (D → Bool) → List D → Result ℕ

module _ {D : Type 0} where
  abbrev pub count : (D → Bool) → List D → ℕ
  count p [] = 0
  count p (x ∷ xs) = if p x then suc (count p xs) else count p xs

  abbrev pub first : (D → Bool) → List D → Option D
  first p [] = none
  first p (x ∷ xs) = if p x then some x else first p xs

  abbrev pub set_first : (D → Bool) → (D → D) → List D → List D
  set_first p f [] = []
  set_first p f (x ∷ xs) = if p x then f x ∷ xs else x ∷ set_first p f xs

  abbrev pub drop_first : (D → Bool) → List D → List D
  drop_first p [] = []
  drop_first p (x ∷ xs) = if p x then xs else x ∷ drop_first p xs

-- A unique index, `key`: no key stands in two documents.
abbrev pub IsUnique : {D K : Type 0} → (K → D → Bool) → List D → Type 0
IsUnique {K = K} key xs = (k : K) → count (key k) xs ≤ 1

-- The documented answers of the driver, when it does not fail, on a collection with a unique index.
pub record DriverLaws {D K : Type 0} (key : K → D → Bool) (driver : Driver D) : Type 0 where
  pub insert_many-ok :
      (ds xs ys : List D) → driver.insert_many ds xs ≡ ok ys → (ys ≡ xs ++ ds) × IsUnique key ys
  pub delete_many-ok :
      (p : D → Bool) (xs ys : List D)
      → driver.delete_many p xs ≡ ok ys
      → ys ≡ keep (λ d. not (p d)) xs
  pub delete_one-ok :
      (p : D → Bool) (xs ys : List D) → driver.delete_one p xs ≡ ok ys → ys ≡ drop_first p xs
  pub update_one-ok :
      (p : D → Bool) (f : D → D) (xs ys : List D)
      → driver.update_one p f xs ≡ ok ys
      → (ys ≡ set_first p f xs) × ((d : D) × (first p xs ≡ some d))
  pub find_one-ok :
      (p : D → Bool) (xs : List D) (d : D) → driver.find_one p xs ≡ ok d → first p xs ≡ some d
  pub find_one-absent :
      (p : D → Bool) (xs : List D)
      → driver.find_one p xs ≡ err err_record_not_found
      → first p xs ≡ none
  pub find-ok : (p : D → Bool) (xs ys : List D) → driver.find p xs ≡ ok ys → ys ≡ keep p xs
