-- ===== src/Prelude/Results.antt =====
-- Results of fallible code, with `do`.
use mathlib.Core.Path.{◌≡◌, refl}
use mathlib.Core.Option.{Option, none, some}

pub data Result {ℓ κ} (E : Type ℓ) (A : Type κ) : Type (ℓ ⊔ κ) where
  ok : A → Result E A
  err : E → Result E A

infixl 5 ◌>>=◌ ◌>>◌
abbrev pub ◌>>=◌ {ℓ κ μ} :
    {E : Type ℓ} {A : Type κ} {B : Type μ} → Result E A → (A → Result E B) → Result E B
ok a >>= f = f a
err e >>= f = err e

abbrev pub ◌>>◌ {ℓ κ} : {E : Type ℓ} {B : Type κ} → Result E (Unit {0}) → Result E B → Result E B
m >> k = m >>= λ _. k

-- The code does not panic, and its result has the property.
abbrev pub IsOk {ℓ} : {A : Type ℓ} → (A → Type 0) → Option A → Type 0
IsOk P none = ⊥
IsOk P (some a) = P a

-- A chain that succeeds has a first step that does, and a rest.
module _ {ℓ κ} {E : Type ℓ} {B : Type κ} where
  pub bind-ok {μ} :
      {A : Type μ} {last : B} (step : Result E A) (rest : A → Result E B)
      → (step >>= rest) ≡ ok last
      → (first : A) × (step ≡ ok first) × (rest first ≡ ok last)
  bind-ok (err failure) rest e = cc
  bind-ok (ok first) rest e = (first, refl, e)

  pub check-ok :
      {last : B} (test : Result E (Unit {0})) (rest : Result E B)
      → (test >> rest) ≡ ok last
      → (test ≡ ok tt) × (rest ≡ ok last)
  check-ok (err failure) rest e = cc
  check-ok (ok tt) rest e = (refl, e)
