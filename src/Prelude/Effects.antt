-- ===== src/Prelude/Effects.antt =====
-- A call on raw memory: it returns, panics, or does what is undefined.

pub data Effect {ℓ} (A : Type ℓ) : Type ℓ where
  returns : A → Effect A
  panics : Effect A
  undefined : Effect A

abbrev pub and_then {ℓ μ} : {A : Type ℓ} {B : Type μ} → Effect A → (A → Effect B) → Effect B
and_then (returns a) next = next a
and_then panics next = panics
and_then undefined next = undefined
