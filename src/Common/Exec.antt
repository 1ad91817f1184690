-- ===== src/Common/Exec.antt =====
-- Methods that change an object and may fail. What was written before the error stays written, so
-- the state comes back beside the error too.
use mathlib.Core.Path.{◌≡◌, refl}
use signal.Common.Errors.{Error, Result, ok, err}

abbrev pub Exec {ℓ κ} : Type ℓ → Type κ → Type (ℓ ⊔ κ)
Exec S A = S → Result A × S

module _ {ℓ κ} {S : Type ℓ} {A : Type κ} where
  abbrev pub pure : A → Exec S A
  pure a s = (ok a, s)

  abbrev pub raise : Error → Exec S A
  raise e s = (err e, s)

  -- A step that only computes.
  abbrev pub lift : Result A → Exec S A
  lift r s = (r, s)

module _ {ℓ} {S : Type ℓ} where
  abbrev pub modify : (S → S) → Exec S (Unit {0})
  modify f s = (ok tt, f s)

  abbrev pub get : Exec S S
  get s = (ok s, s)

module _ {ℓ κ μ} {S : Type ℓ} {A : Type κ} {B : Type μ} where
  abbrev pub continue : Result A → (A → Exec S B) → Exec S B
  continue (ok a) f s = f a s
  continue (err e) f s = (err e, s)

  infixl 5 ◌>>=◌
  abbrev pub ◌>>=◌ : Exec S A → (A → Exec S B) → Exec S B
  ◌>>=◌ m f s = let (r, s') = m s in continue r f s'

module _ {ℓ κ} {S : Type ℓ} {A : Type κ} where
  infixl 5 ◌>>◌
  abbrev pub ◌>>◌ : Exec S (Unit {0}) → Exec S A → Exec S A
  m >> k = m >>= λ _. k

module _ {ℓ κ μ} {S : Type ℓ} {A : Type κ} {B : Type μ} where
  continue-ok :
      (p : Result A × S) (f : A → Exec S B) (b : B) (t : S)
      → continue p.0 f p.1 ≡ (ok b, t)
      → (a : A) × (u : S) × (p ≡ (ok a, u)) × (f a u ≡ (ok b, t))
  continue-ok (ok a, u) f b t e = (a, u, refl, e)
  continue-ok (err x, u) f b t e = cc

  -- A success of a sequence is a success of both parts.
  pub bind-ok :
      (m : Exec S A) (f : A → Exec S B) (s : S) {b : B} {t : S}
      → (m >>= f) s ≡ (ok b, t)
      → (a : A) × (u : S) × (m s ≡ (ok a, u)) × (f a u ≡ (ok b, t))
  bind-ok m f s {b} {t} e = continue-ok (m s) f b t e

module _ {ℓ κ μ} {S : Type ℓ} {A : Type κ} {B : Type μ} where
  -- A last step that only computes leaves the state of the part before it.
  pub state-bind-lift :
      (m : Exec S A) (g : A → Result B) (s : S) → ((m >>= (λ a. lift (g a))) s).1 ≡ (m s).1
  state-bind-lift m g s = go (m s)
    where
      go : (p : Result A × S) → (continue p.0 (λ a. lift (g a)) p.1).1 ≡ p.1
      go (ok a, t) = refl
      go (err e, t) = refl
