-- ===== src/Runtime/Tests.antt =====
-- The theorems on contexts at a thread with two contexts above its root.
use chiya.Prelude.{ℕ, ◌≡◌, ◌==◌, if◌then◌else◌, refl, arith, some, [], ◌∷◌}
use chiya.Prelude.Effects.{returns}
use chiya.Runtime.{Context, new, Thread, top, coroutine_ctx, get_local_data}
use chiya.Runtime.Search.{first_local, coroutine_ctx-first_local}

abbrev parents : ℕ → Context ℕ
parents a =
    if a == 0
    then record new { parent = some 2 }
    else if a == 1
    then record new { parent = some 0; local_data = some 70 }
    else record new { parent = some 1 }

abbrev nested : Thread ℕ
nested = record { root = some 0; contexts = parents; next = 3 }

coroutine_ctx-first_local_example :
    (coroutine_ctx parents 0 3 ≡ some (returns (some 1)))
    × (get_local_data 3 nested ≡ (some (returns (some 70)), nested))
unfolding top first_local
coroutine_ctx-first_local_example =
    coroutine_ctx-first_local nested 0 (2 ∷ 1 ∷ []) refl
      (refl, (λ e. omega arith), (refl, (λ e. omega arith), refl))
