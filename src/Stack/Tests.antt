-- ===== src/Stack/Tests.antt =====
-- The theorem on the allocation of a stack at concrete sizes.
use chiya.Prelude.{ℕ, suc, ◌≡◌, ◌⊎◌, Option, some, List, [], ◌∷◌, length, replicate}
use chiya.Prelude.Effects.{returns, panics, undefined}
use chiya.Stack.Footprint.{magic, new, get_used_size, Used, new-undefined, get_used_size-cases}
use chiya.Stack.{SysStack}

-- A system that gives the addresses from 0 on, and one that protects any stack.
mapped : ℕ → Option SysStack
mapped size = some (record { top = size; bottom = 0 })

guarded : SysStack → Option SysStack
guarded stack = some stack

new-undefined_example :
    (new mapped guarded 4096 4096 1048576 513 ≡ panics)
    ⊎ (new mapped guarded 4096 4096 1048576 513 ≡ undefined)
new-undefined_example = new-undefined mapped guarded 4096 4096 1048576 513

abbrev marked_stack : List ℕ
marked_stack = magic ∷ magic ∷ 5 ∷ magic ∷ 6 ∷ []

get_used_size-cases_example :
    ((marked_stack ≡ replicate 5 magic) × (get_used_size marked_stack ≡ undefined))
    ⊎ ((k : ℕ) × (w : ℕ) × (rest : List ℕ) × (get_used_size marked_stack
          ≡ returns (suc (length rest)))
        × Used marked_stack k w rest)
get_used_size-cases_example = get_used_size-cases marked_stack
