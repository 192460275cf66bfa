-- ===== src/Prelude/Outcome.antt =====
-- Go's pair of a value and an error, of which a caller reads the error first.
use mathlib.Core.Path.{◌≡◌, refl}
use mathlib.Core.Logic.{◌⊎◌, inl, inr}
use mathlib.Core.Bool.{Bool, true, false}

pub data Result {ℓ κ} (E : Type ℓ) (A : Type κ) : Type (ℓ ⊔ κ) where
  ok : A → Result E A
  err : E → Result E A

module _ {ℓ} {E : Type ℓ} where
  infixl 5 ◌>>=◌ ◌>>◌
  -- `x, err := m; if err != nil { return err }`.
  abbrev pub ◌>>=◌ {κ μ} : {A : Type κ} {B : Type μ} → Result E A → (A → Result E B) → Result E B
  err e >>= next = err e
  ok a >>= next = next a

  abbrev pub ◌>>◌ {κ} : {B : Type κ} → Result E (Unit {0}) → Result E B → Result E B
  m >> next = m >>= λ _. next

  -- `if !test { return e }`.
  abbrev pub guard : Bool → E → Result E (Unit {0})
  guard false e = err e
  guard true e = ok tt

  -- A chain that succeeds had a first step that did.
  pub bind-ok {κ μ} :
      {A : Type κ} {B : Type μ} {b : B} (m : Result E A) (next : A → Result E B)
      → (m >>= next) ≡ ok b
      → (a : A) × (m ≡ ok a) × (next a ≡ ok b)
  bind-ok (err e) next h = cc
  bind-ok (ok a) next h = (a, refl, h)

-- A chain that succeeds passed its tests.
pub guard-ok {ℓ κ} :
    {E : Type ℓ} {B : Type κ} {b : B} (test : Bool) (e : E) (next : Result E B)
    → (guard test e >> next) ≡ ok b
    → (test ≡ true) × (next ≡ ok b)
guard-ok true e next h = (refl, h)
guard-ok false e next h = cc

pub Result-cases {ℓ κ} :
    {E : Type ℓ} {A : Type κ} (m : Result E A) → ((a : A) × (m ≡ ok a)) ⊎ ((e : E) × (m ≡ err e))
Result-cases (ok a) = inl (a, refl)
Result-cases (err e) = inr (e, refl)
