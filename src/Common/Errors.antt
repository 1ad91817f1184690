-- ===== src/Common/Errors.antt =====
-- errors/errors.go, spqr/errors.go and Go's (value, error) results.
use Prim.Native.String.{String}
use mathlib.Core.Path.{◌≡◌, refl}
use mathlib.Core.Logic.{◌⊎◌, inl, inr}
use mathlib.Core.Option.{Option, none, some}

-- The sentinel that an error wraps, as `errors.Is` finds it; `plain` is an error that wraps none. `panicked` is no
-- error of Go: the call panics.
pub data Error : Type 0 where
  invalid_key invalid_signature untrusted_identity invalid_message duplicate_message : Error
  invalid_mac no_session no_sender_key session_not_found pre_key_not_found : Error
  pre_key_expired max_skip_exceeded stale_key_exchange counter_overflow : Error
  invalid_public_key ciphertext_too_short hkdf_length : Error
  epoch_out_of_range send_key_epoch_decreased key_jump key_trimmed key_already_requested : Error
  pqr_invalid_message pqr_unsupported_version panicked : Error
  plain : String → Error

pub data Result {ℓ} (A : Type ℓ) : Type ℓ where
  ok : A → Result A
  err : Error → Result A

infixl 5 ◌>>=◌
abbrev pub ◌>>=◌ {ℓ κ} : {A : Type ℓ} {B : Type κ} → Result A → (A → Result B) → Result B
ok a >>= f = f a
err e >>= f = err e

abbrev pub or_fail {ℓ} : {A : Type ℓ} → Option A → Error → Result A
or_fail none e = err e
or_fail (some a) e = ok a

pub Result-cases {ℓ} :
    {A : Type ℓ} (r : Result A) → ((a : A) × (r ≡ ok a)) ⊎ ((e : Error) × (r ≡ err e))
Result-cases (ok a) = inl (a, refl)
Result-cases (err e) = inr (e, refl)

-- A success of a sequence is a success of both parts.
pub Result-bind-ok {ℓ κ} :
    {A : Type ℓ} {B : Type κ} (r : Result A) (f : A → Result B) (b : B)
    → (r >>= f) ≡ ok b
    → (a : A) × (r ≡ ok a) × (f a ≡ ok b)
Result-bind-ok (ok a) f b e = (a, refl, e)
Result-bind-ok (err x) f b e = cc

pub or_fail-ok {ℓ} :
    {A : Type ℓ} (o : Option A) (x : Error) (a : A) → or_fail o x ≡ ok a → o ≡ some a
or_fail-ok none x a e = cc
or_fail-ok (some b) x a e = cc
