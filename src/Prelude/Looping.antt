-- ===== src/Prelude/Looping.antt =====
-- What a Rust call with a loop comes to: a value, a panic, or no result within the fuel of the
-- model, for a loop that may not end.
use mathlib.Core.Bool.{Bool, true, false}

pub data Run {ℓ} (A : Type ℓ) : Type ℓ where
  done : A → Run A
  panic : Run A
  stuck : Run A

infixl 5 ◌>>◌ ◌>>=◌
abbrev pub ◌>>=◌ {ℓ μ} : {A : Type ℓ} {B : Type μ} (first : Run A) (rest : A → Run B) → Run B
done a >>= rest = rest a
panic >>= rest = panic
stuck >>= rest = stuck

abbrev pub ◌>>◌ {ℓ} : {B : Type ℓ} → Run (Unit {0}) → Run B → Run B
test >> rest = test >>= λ _. rest

-- `assert!`
abbrev pub assert : Bool → Run (Unit {0})
assert true = done tt
assert false = panic
