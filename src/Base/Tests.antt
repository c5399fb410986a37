-- ===== src/Base/Tests.antt =====
-- Boolean tests on the native numbers, the conditional, and Go's strings as byte sequences.
use Prim.Native.Nat.{ℕ, compare, Ordering}
use Prim.Native.Char.{code}
use Prim.Native.String.{String}
use mathlib.Core.Path.{◌≡◌, refl}
use mathlib.Core.Logic.{◌⊎◌, inl, inr}
use mathlib.Core.Bool.{Bool, true, false}
use mathlib.Core.List.{List, [], ◌∷◌}
use mathlib.Core.Option.{Option, none, some}
use native.Mathlib.Decide.{ℕ_discrete}

abbrev pub ltb : ℕ → ℕ → Bool
ltb a b = elim (compare a b) [ Ordering.lt ↦ true | _ ↦ false ]

abbrev pub leb : ℕ → ℕ → Bool
leb a b = elim (compare a b) [ Ordering.gt ↦ false | _ ↦ true ]

infix 50 ◌==◌
abbrev pub ◌==◌ : ℕ → ℕ → Bool
a == b = elim (compare a b) [ Ordering.eq ↦ true | _ ↦ false ]

infix 1 if◌then◌else◌
abbrev pub if◌then◌else◌ {ℓ} : {A : Type ℓ} → Bool → A → A → A
if true then x else y = x
if false then x else y = y

-- To split on a computed value and keep the equation.
pub Bool-cases : (b : Bool) → (b ≡ true) ⊎ (b ≡ false)
Bool-cases true = inl refl
Bool-cases false = inr refl

pub Option-cases {ℓ} : {A : Type ℓ} (o : Option A) → (o ≡ none) ⊎ ((a : A) × (o ≡ some a))
Option-cases none = inl refl
Option-cases (some a) = inr (a, refl)

-- A Go string is a sequence of bytes.
abbrev pub Bytes : Type 0
Bytes = List ℕ

-- The bytes of an ASCII literal.
abbrev pub codes : String → Bytes
codes String.[] = []
codes (String.◌∷◌ c s) = code c ∷ codes s

unfoldable pub bytes_discrete : Discrete Bytes
unfolding ℕ_discrete
bytes_discrete = hlevel ℕ_discrete

abbrev pub dec_true {ℓ} : {P : Type ℓ} → Dec P → Bool
dec_true (yes p) = true
dec_true (no p) = false

same : dec_true (bytes_discrete (codes "ab") (codes "ab")) ≡ true
unfolding bytes_discrete
same = refl

-- What holds in both branches of a test.
pub if-cases {ℓ κ} :
    {A : Type ℓ} (P : A → Type κ) (b : Bool) {x y : A}
    → (b ≡ true → P x)
    → (b ≡ false → P y)
    → P (if b then x else y)
if-cases P true t f = t refl
if-cases P false t f = f refl

pub if_dec-cases {ℓ κ μ} :
    {A : Type ℓ} (P : A → Type κ) {Q : Type μ} (d : Dec Q) {x y : A}
    → (Q → P x)
    → P y
    → P (if dec_true d then x else y)
if_dec-cases P (yes q) t f = t q
if_dec-cases P (no n) t f = f
