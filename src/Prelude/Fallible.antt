-- ===== src/Prelude/Fallible.antt =====
-- What a Rust call comes to: a value, or a panic (a failed assertion or `expect`, an index out of
-- bounds, an arithmetic overflow, `unreachable!`).
use mathlib.Core.Bool.{Bool, true, false}

pub data Outcome {ℓ} (A : Type ℓ) : Type ℓ where
  value : A → Outcome A
  panic : Outcome A

infixl 5 ◌>>◌ ◌>>=◌
abbrev pub ◌>>=◌ {ℓ μ} :
    {A : Type ℓ} {B : Type μ} (first : Outcome A) (rest : A → Outcome B) → Outcome B
value a >>= rest = rest a
panic >>= rest = panic

abbrev pub ◌>>◌ {ℓ} : {B : Type ℓ} → Outcome (Unit {0}) → Outcome B → Outcome B
test >> rest = test >>= λ _. rest

-- `assert!`
abbrev pub assert : Bool → Outcome (Unit {0})
assert true = value tt
assert false = panic
