-- ===== src/Processor/Strings.antt =====
-- What pkg/msgprocessor uses of Go's packages sort and strings, on byte sequences.
use open_im_server.Base.{
  ℕ, ◌==◌, ◌≡◌, ◌≢◌, refl, Bool, true, false, ◌&&◌, Bytes, ltb, List, [], ◌∷◌, ◌++◌, if◌then◌else◌,
  arith,
}

-- The order of strings: byte by byte.
unfoldable pub leb_bytes : Bytes → Bytes → Bool
leb_bytes [] t = true
leb_bytes (x ∷ s) [] = false
leb_bytes (x ∷ s) (y ∷ t) =
    let rest = leb_bytes s t in if ltb x y then true else if x == y then rest else false

unfoldable pub insert_sorted : Bytes → List Bytes → List Bytes
insert_sorted s [] = s ∷ []
insert_sorted s (t ∷ l) = if leb_bytes s t then s ∷ t ∷ l else t ∷ insert_sorted s l

-- sort.Strings
unfoldable pub sort : List Bytes → List Bytes
unfolding insert_sorted
sort [] = []
sort (s ∷ l) = insert_sorted s (sort l)

-- strings.Join
unfoldable pub join : Bytes → List Bytes → Bytes
join sep [] = []
join sep (s ∷ []) = s
join sep (s ∷ t ∷ l) = s ++ (sep ++ join sep (t ∷ l))

unfoldable pub cons_head : ℕ → List Bytes → List Bytes
cons_head x [] = (x ∷ []) ∷ []
cons_head x (s ∷ l) = (x ∷ s) ∷ l

-- strings.Split by a separator of one byte
unfoldable pub split : ℕ → Bytes → List Bytes
unfolding cons_head
split c [] = [] ∷ []
split c (x ∷ s) = let rest = split c s in if x == c then [] ∷ rest else cons_head x rest

-- strings.HasPrefix, with the text first
unfoldable pub has_prefix : Bytes → Bytes → Bool
has_prefix s [] = true
has_prefix [] (p ∷ ps) = false
has_prefix (x ∷ s) (p ∷ ps) = x == p && has_prefix s ps

leb_bytes_total : (s t : Bytes) → leb_bytes s t ≡ false → leb_bytes t s ≡ true
unfolding leb_bytes
leb_bytes_total [] t h = ground arith
leb_bytes_total (x ∷ s) [] h = refl
leb_bytes_total (x ∷ s) (y ∷ t) h = ground (arith, leb_bytes_total s t)

leb_bytes_antisym : (s t : Bytes) → leb_bytes s t ≡ true → leb_bytes t s ≡ true → s ≡ t
unfolding leb_bytes
leb_bytes_antisym [] [] h k = refl
leb_bytes_antisym [] (y ∷ t) h k = ground arith
leb_bytes_antisym (x ∷ s) [] h k = ground arith
leb_bytes_antisym (x ∷ s) (y ∷ t) h k = ground (arith, leb_bytes_antisym s t)

-- Two strings are sorted alike whichever comes first.
pub sort_two : (s t : Bytes) → sort (s ∷ t ∷ []) ≡ sort (t ∷ s ∷ [])
unfolding sort
sort_two s t = ground (arith, leb_bytes_total s t, leb_bytes_total t s, leb_bytes_antisym s t)

pub split_ne_nil : (c : ℕ) (s : Bytes) → split c s ≢ []
unfolding split
split_ne_nil c [] = λ e. cc
split_ne_nil c (x ∷ s) = λ e. split-cons (split c s) e
  where
    split-cons : (l : List Bytes) → (if x == c then [] ∷ l else cons_head x l) ≡ [] → ⊥
    split-cons [] e = ground arith
    split-cons (t ∷ l) e = ground arith

join-nil_cons : (c : ℕ) (l : List Bytes) → l ≢ [] → join (c ∷ []) ([] ∷ l) ≡ c ∷ join (c ∷ []) l
unfolding join
join-nil_cons c [] h = absurd (h refl)
join-nil_cons c (s ∷ l) h = refl

join-cons_head : (c x : ℕ) (l : List Bytes) → join (c ∷ []) (cons_head x l) ≡ x ∷ join (c ∷ []) l
unfolding join cons_head
join-cons_head c x [] = refl
join-cons_head c x (s ∷ []) = refl
join-cons_head c x (s ∷ t ∷ l) = refl

-- Joining what a split gave gives the text back.
pub join-split : (c : ℕ) (s : Bytes) → join (c ∷ []) (split c s) ≡ s
unfolding split
join-split c [] = unfold join in refl
join-split c (x ∷ s) = ground (
  arith,
  join-nil_cons c (split c s) (split_ne_nil c s),
  join-cons_head c x (split c s),
  join-split c s,
)
