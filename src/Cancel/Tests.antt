-- ===== src/Cancel/Tests.antt =====
-- The theorem on `Cancel` at a concrete run.
use chiya.Prelude.{ℕ, ◌≡◌, refl, true, false, [], ◌∷◌}
use chiya.Cancel.{new, is_cancelled, is_disabled, disable, enable, cancel_it, run, count, run-count}

run-count_example :
    ((run (disable ∷ cancel_it ∷ enable ∷ []) (new {C = ℕ})).state ≡ 1)
    × (is_cancelled (run (disable ∷ cancel_it ∷ enable ∷ []) (new {C = ℕ})) ≡ true)
    × (is_disabled (run (disable ∷ cancel_it ∷ enable ∷ []) (new {C = ℕ})) ≡ false)
unfolding count
run-count_example = run-count ℕ (disable ∷ cancel_it ∷ enable ∷ []) refl
