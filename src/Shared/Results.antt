-- ===== src/Shared/Results.antt =====
-- What a Go function that returns an error ends with: a value, an error, or a run-time panic (an
-- index out of range).

use mathlib.Core.Path.{◌≡◌, refl}

pub data Outcome {ℓ} (E : Type 0) (A : Type ℓ) : Type ℓ where
  panic : Outcome E A
  err : E → Outcome E A
  ok : A → Outcome E A

-- `if err != nil { return err }`: the rest of a function runs after a value only.
infixl 5 ◌>>=◌
abbrev pub ◌>>=◌ {ℓ κ} :
    {E : Type 0} {A : Type ℓ} {B : Type κ} → Outcome E A → (A → Outcome E B) → Outcome E B
panic >>= rest = panic
err e >>= rest = err e
ok a >>= rest = rest a

module _ {ℓ κ} {E : Type 0} {A : Type ℓ} {B : Type κ} where
  -- A chain that succeeds went through a first value.
  pub >>=-eq-ok :
      (first : Outcome E A) (rest : A → Outcome E B) {result : B}
      → first >>= rest ≡ ok result
      → (value : A) × (first ≡ ok value) × (rest value ≡ ok result)
  >>=-eq-ok panic rest done = cc
  >>=-eq-ok (err e) rest done = cc
  >>=-eq-ok (ok value) rest done = (value, refl, done)

pub ok_injective {ℓ} :
    {E : Type 0} {A : Type ℓ} {a b : A} → ◌≡◌ {A = Outcome E A} (ok a) (ok b) → a ≡ b
ok_injective h = cc
