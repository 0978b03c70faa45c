-- ===== src/Memory/Returns.antt =====
-- A call that returns, with what holds of the value and of the memory then.
use chiya.Memory.{Memory, Result, ok, Eff, and_then}

pub data Returns {ℓ} {A : Type ℓ} (P : A → Memory → Type 0) : Result A → Type ℓ where
  returns : {a : A} {m : Memory} → P a m → Returns P (ok a m)

module _ {ℓ} {A : Type ℓ} {P : A → Memory → Type 0} where
  pub Returns-and_then {μ} :
      {B : Type μ} {Q : B → Memory → Type 0} {first : Result A} {next : A → Eff B}
      → Returns P first
      → ((a : A) (m : Memory) → P a m → Returns Q (next a m))
      → Returns Q (and_then first next)
  Returns-and_then (returns p) continue = continue _ _ p

  pub Returns-weaken :
      {Q : A → Memory → Type 0} {run : Result A}
      → Returns P run
      → ((a : A) (m : Memory) → P a m → Q a m)
      → Returns Q run
  Returns-weaken (returns p) implies = returns (implies _ _ p)
