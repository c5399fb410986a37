-- ===== src/Base/Results.antt =====
-- Go's pair of a result and an error, as one value, with the errors that the handlers raise by
-- name (github.com/OpenIMSDK/tools/errs).
use Prim.Native.Nat.{ℕ}
use mathlib.Core.Path.{◌≡◌, refl, subst}
use mathlib.Core.Logic.{◌⊎◌, inl, inr}
use mathlib.Core.Bool.{Bool, true, false}

pub data Error : Type 0 where
  err_args err_no_permission err_record_not_found err_internal_server : Error
  err_conn_over_max_num_limit err_conn_args : Error
  err_token_kicked err_token_unknown err_token_not_exist err_token_invalid : Error
  err_blocked_by_peer err_not_peers_friend err_dismissed_already err_not_in_group_yet : Error
  err_muted_in_group err_muted_group err_message_has_read_disable err_msg_already_revoke : Error
  err_redis_nil err_too_large err_too_short : Error
  err_group_id_existed err_user_id_not_found err_group_request_handled err_data : Error
  -- a nil pointer is dereferenced: the handler panics
  err_nil_pointer : Error
  -- any other error of a called service, told apart by a number
  err_upstream : ℕ → Error

pub data Result {ℓ} (A : Type ℓ) : Type ℓ where
  ok : A → Result A
  err : Error → Result A

-- An early `return err` unless the test holds.
abbrev pub require : Bool → Error → Result (Unit {0})
require true e = ok tt
require false e = err e

-- `errs.ErrRecordNotFound.Is(err)`
abbrev pub is_record_not_found : Error → Bool
is_record_not_found err_record_not_found = true
is_record_not_found _ = false

-- `errs.Unwrap(err) == redis.Nil`
abbrev pub is_redis_nil : Error → Bool
is_redis_nil err_redis_nil = true
is_redis_nil _ = false

-- Sequencing stops at the first error.
infixl 5 ◌>>=◌
abbrev pub ◌>>=◌ {ℓ κ} : {X : Type ℓ} {Y : Type κ} → Result X → (X → Result Y) → Result Y
err e >>= next = err e
ok x >>= next = next x

infixl 5 ◌>>◌
abbrev pub ◌>>◌ {ℓ} : {Y : Type ℓ} → Result (Unit {0}) → Result Y → Result Y
check >> rest = check >>= λ _. rest

-- A chain that succeeds has a first step that succeeds.
pub >>=-eq-ok {ℓ κ} :
    {X : Type ℓ} {Y : Type κ} (first : Result X) (next : X → Result Y) {y : Y}
    → (first >>= next) ≡ ok y
    → (x : X) × (first ≡ ok x) × (next x ≡ ok y)
>>=-eq-ok (ok x) next h = (x, refl, h)
>>=-eq-ok (err e) next h = cc

pub Result-cases {ℓ} :
    {A : Type ℓ} (r : Result A) → ((a : A) × (r ≡ ok a)) ⊎ ((e : Error) × (r ≡ err e))
Result-cases (ok a) = inl (a, refl)
Result-cases (err e) = inr (e, refl)

-- What holds of the value of a chain that succeeds.
abbrev pub OnOk {ℓ κ} : {A : Type ℓ} → (A → Type κ) → Result A → Type κ
OnOk P (ok a) = P a
OnOk P (err e) = Unit

pub OnOk-ok {ℓ κ} : {A : Type ℓ} (P : A → Type κ) {r : Result A} {a : A} → r ≡ ok a → OnOk P r → P a
OnOk-ok P h o = subst (OnOk P) h o

pub >>=-OnOk {ℓ κ μ} :
    {X : Type ℓ} {Y : Type κ} (P : Y → Type μ) (first : Result X) (next : X → Result Y)
    → ((x : X) → first ≡ ok x → OnOk P (next x))
    → OnOk P (first >>= next)
>>=-OnOk P (ok x) next h = h x refl
>>=-OnOk P (err e) next h = tt

pub require-OnOk {κ} :
    (P : Type κ) (b : Bool) (e : Error) → (b ≡ true → P) → OnOk (λ u. P) (require b e)
require-OnOk P true e h = h refl
require-OnOk P false e h = tt

pub >>=-OnOk_of {ℓ κ μ ν} :
    {X : Type ℓ} {Y : Type κ} (Q : X → Type ν) (P : Y → Type μ) (first : Result X)
    (next : X → Result Y)
    → OnOk Q first
    → ((x : X) → Q x → OnOk P (next x))
    → OnOk P (first >>= next)
>>=-OnOk_of Q P (ok x) next q h = h x q
>>=-OnOk_of Q P (err e) next q h = tt

pub OnOk-weaken {ℓ κ μ} :
    {X : Type ℓ} (Q : X → Type κ) (P : X → Type μ) (r : Result X)
    → ((x : X) → Q x → P x)
    → OnOk Q r
    → OnOk P r
OnOk-weaken Q P (ok x) h q = h x q
OnOk-weaken Q P (err e) h q = tt

pub OnOk-of {ℓ κ} :
    {X : Type ℓ} (P : X → Type κ) (r : Result X) → ((x : X) → r ≡ ok x → P x) → OnOk P r
OnOk-of P (ok x) h = h x refl
OnOk-of P (err e) h = tt
