-- ===== src/Base/Int.antt =====
-- Signed integers (Go's int64 counters and sequence numbers) over the native numbers. Sums and
-- orders go through the two parts of an integer, which are numbers that `omega` reads.
use Prim.Native.Nat.{ℕ, zero, suc, ◌+◌, ◌-◌, ◌%◌, ◌≤◌, ◌<◌}
use mathlib.Core.Path.{◌≡◌, ap, refl}
use mathlib.Core.Logic.{◌⊎◌, inl, inr}
use mathlib.Core.Bool.{Bool, ◌&&◌}
use mathlib.Core.List.{List, [], ◌∷◌}
use native.Mathlib.Omega.{arith}
use native.Mathlib.Decide.{ℕ_discrete}
use open_im_server.Base.Lists.{contains}
use open_im_server.Base.Tests.{ltb, leb, if◌then◌else◌}

-- `negsuc n` is -(n + 1).
pub data ℤ : Type 0 where
  pos : ℕ → ℤ
  negsuc : ℕ → ℤ

abbrev pub pos_part : ℤ → ℕ
pos_part (pos n) = n
pos_part (negsuc n) = 0

abbrev pub neg_part : ℤ → ℕ
neg_part (pos n) = 0
neg_part (negsuc n) = suc n

-- a - b, as an integer.
abbrev pub sub_ℕ : ℕ → ℕ → ℤ
sub_ℕ a b = if leb b a then pos (a - b) else negsuc (b - a - 1)

infixl 65 ◌+ℤ◌ ◌-ℤ◌
infix 50 ◌≤ℤ◌
unfoldable pub ◌+ℤ◌ : ℤ → ℤ → ℤ
a +ℤ b = sub_ℕ (pos_part a + pos_part b) (neg_part a + neg_part b)

unfoldable pub ◌-ℤ◌ : ℤ → ℤ → ℤ
a -ℤ b = sub_ℕ (pos_part a + neg_part b) (neg_part a + pos_part b)

abbrev pub ◌≤ℤ◌ : ℤ → ℤ → Type 0
a ≤ℤ b = pos_part a + neg_part b ≤ pos_part b + neg_part a

abbrev pub ltb_ℤ : ℤ → ℤ → Bool
ltb_ℤ a b = ltb (pos_part a + neg_part b) (pos_part b + neg_part a)

abbrev pub leb_ℤ : ℤ → ℤ → Bool
leb_ℤ a b = leb (pos_part a + neg_part b) (pos_part b + neg_part a)

pub +ℤ_parts :
    (a b : ℤ)
    → pos_part (a +ℤ b) + neg_part a + neg_part b ≡ neg_part (a +ℤ b) + pos_part a + pos_part b
unfolding ◌+ℤ◌
+ℤ_parts a b = ground arith

pub -ℤ_parts :
    (a b : ℤ)
    → pos_part (a -ℤ b) + neg_part a + pos_part b ≡ neg_part (a -ℤ b) + pos_part a + neg_part b
unfolding ◌-ℤ◌
-ℤ_parts a b = ground arith

pub eq_of_parts : (a b : ℤ) → pos_part a + neg_part b ≡ pos_part b + neg_part a → a ≡ b
eq_of_parts a b h = ground arith

pub ruleset int_laws = (arith, +ℤ_parts, -ℤ_parts, eq_of_parts)

-- What int64 keeps of the exact result of an operation: the number modulo 2 ^ 64, from -2 ^ 63 on.
unfoldable pub int64 : ℤ → ℤ
int64 (pos n) =
    let r = n % 18446744073709551616 in
    if ltb r 9223372036854775808 then pos r else negsuc (18446744073709551615 - r)
int64 (negsuc n) =
    let r = n % 18446744073709551616 in
    if ltb r 9223372036854775808 then negsuc r else pos (18446744073709551615 - r)

-- The number is one of int64.
abbrev pub FitsInt64 : ℤ → Type 0
FitsInt64 (pos n) = n < 9223372036854775808
FitsInt64 (negsuc n) = n < 9223372036854775808

pub int64_fits : (a : ℤ) → FitsInt64 a → int64 a ≡ a
unfolding int64
int64_fits (pos n) h = ground (arith, h)
int64_fits (negsuc n) h = ground (arith, h)

-- The loop `for i := a; i <= b; i++` that appends i to a nil slice.
abbrev pub count_up : ℤ → ℕ → List ℤ
count_up a zero = []
count_up a (suc n) = a ∷ count_up (a +ℤ pos 1) n

-- b - a + 1 steps, and none if b < a.
unfoldable pub seq_range : ℤ → ℤ → List ℤ
seq_range a b = count_up a (pos_part ((b -ℤ a) +ℤ pos 1))

unfoldable pub int_discrete : Discrete ℤ
int_discrete (pos a) (pos b) = elim (ℕ_discrete a b) [
  | yes e ↦ yes (ap pos e)
  | no n ↦ no (λ e. n (ground arith))
]
int_discrete (negsuc a) (negsuc b) = elim (ℕ_discrete a b) [
  | yes e ↦ yes (ap negsuc e)
  | no n ↦ no (λ e. n (ground arith))
]
int_discrete (pos a) (negsuc b) = no (λ e. ground arith)
int_discrete (negsuc a) (pos b) = no (λ e. ground arith)

-- One of the two parts is 0.
one_part : (a : ℤ) → (pos_part a ≡ 0) ⊎ (neg_part a ≡ 0)
one_part (pos n) = inr refl
one_part (negsuc n) = inl refl

contains-count_up :
    (x a : ℤ) (n : ℕ) → contains int_discrete x (count_up a n) ≡ leb_ℤ a x && ltb_ℤ x (a +ℤ pos n)
contains-count_up x a zero = ground (arith, +ℤ_parts a (pos 0))
contains-count_up x a (suc n) = ground (
  arith,
  +ℤ_parts a (pos 1),
  +ℤ_parts a (pos (suc n)),
  +ℤ_parts (a +ℤ pos 1) (pos n),
  contains-count_up x (a +ℤ pos 1) n,
  eq_of_parts x a,
)

-- The loop visits exactly the numbers from a to b.
pub contains-seq_range :
    (x a b : ℤ) → contains int_discrete x (seq_range a b) ≡ leb_ℤ a x && leb_ℤ x b
unfolding seq_range
contains-seq_range x a b = ground (
  arith,
  contains-count_up x a (pos_part ((b -ℤ a) +ℤ pos 1)),
  +ℤ_parts a (pos (pos_part ((b -ℤ a) +ℤ pos 1))),
  +ℤ_parts (b -ℤ a) (pos 1),
  -ℤ_parts b a,
  one_part (b -ℤ a),
  one_part ((b -ℤ a) +ℤ pos 1),
)
