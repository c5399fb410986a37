-- ===== src/Base/Assoc.antt =====
-- Go maps as association lists: a missing key gives `none`.
use Prim.Native.Nat.{◌+◌}
use mathlib.Core.Path.{◌≡◌, refl}
use mathlib.Core.Logic.{ite}
use mathlib.Core.List.{List, [], ◌∷◌}
use mathlib.Core.Option.{Option, none, some}
use native.Mathlib.Omega.{arith}
use open_im_server.Base.Lists.{length}

abbrev pub Map {ℓ} : Type ℓ → Type ℓ → Type ℓ
Map K V = List (K × V)

module _ {ℓ} {K V : Type ℓ} (dec : Discrete K) where
  unfoldable pub lookup : K → Map K V → Option V
  lookup k [] = none
  lookup k ((j, v) ∷ m) = ite (dec j k) (some v) (lookup k m)

  unfoldable pub insert : K → V → Map K V → Map K V
  insert k v [] = (k, v) ∷ []
  insert k v ((j, w) ∷ m) = ite (dec j k) ((k, v) ∷ m) ((j, w) ∷ insert k v m)

  unfoldable pub delete : K → Map K V → Map K V
  delete k [] = []
  delete k ((j, w) ∷ m) = ite (dec j k) (delete k m) ((j, w) ∷ delete k m)

  -- No key stands twice.
  abbrev pub IsDistinct : Map K V → Type ℓ
  IsDistinct [] = Unit
  IsDistinct ((k, v) ∷ m) = (lookup k m ≡ none) × IsDistinct m

  pub lookup-insert :
      (k j : K) (v : V) (m : Map K V)
      → lookup j (insert k v m) ≡ ite (dec k j) (some v) (lookup j m)
  unfolding lookup insert
  lookup-insert k j v [] = refl
  lookup-insert k j v ((i, w) ∷ m) = ground (arith, lookup-insert k j v m)

  pub lookup-delete :
      (k j : K) (m : Map K V) → lookup j (delete k m) ≡ ite (dec k j) none (lookup j m)
  unfolding lookup delete
  lookup-delete k j [] = ground arith
  lookup-delete k j ((i, w) ∷ m) = ground (arith, lookup-delete k j m)

  pub insert-IsDistinct : (k : K) (v : V) (m : Map K V) → IsDistinct m → IsDistinct (insert k v m)
  unfolding lookup insert
  insert-IsDistinct k v [] h = (refl, tt)
  insert-IsDistinct k v ((i, w) ∷ m) h =
      ground (arith, insert-IsDistinct k v m h.1, lookup-insert k i v m)

  pub delete-IsDistinct : (k : K) (m : Map K V) → IsDistinct m → IsDistinct (delete k m)
  unfolding lookup delete
  delete-IsDistinct k [] h = tt
  delete-IsDistinct k ((i, w) ∷ m) h =
      ground (arith, delete-IsDistinct k m h.1, lookup-delete k i m)

  delete_absent : (k : K) (m : Map K V) → lookup k m ≡ none → delete k m ≡ m
  unfolding lookup delete
  delete_absent k [] h = refl
  delete_absent k ((i, w) ∷ m) h = ground (arith, delete_absent k m)

  pub length-delete :
      (k : K) (m : Map K V) (v : V)
      → IsDistinct m
      → lookup k m ≡ some v
      → length (delete k m) + 1 ≡ length m
  unfolding lookup delete
  length-delete k [] v d h = ground arith
  length-delete k ((i, w) ∷ m) v d h = ground (arith, length-delete k m v d.1, delete_absent k m)

  pub length-insert_new :
      (k : K) (v : V) (m : Map K V) → lookup k m ≡ none → length (insert k v m) ≡ length m + 1
  unfolding lookup insert
  length-insert_new k v [] h = omega arith
  length-insert_new k v ((i, w) ∷ m) h = ground (arith, length-insert_new k v m)

  pub length-insert_old :
      (k : K) (v w : V) (m : Map K V) → lookup k m ≡ some w → length (insert k v m) ≡ length m
  unfolding lookup insert
  length-insert_old k v w [] h = ground arith
  length-insert_old k v w ((i, u) ∷ m) h = ground (arith, length-insert_old k v w m)
