-- ===== src/JoinHandle/Tests.antt =====
-- The theorems on `join` at a schedule in which the thread is registered before the closure ends.
use chiya.Prelude.{ℕ, ◌≡◌, refl, true, false, List, [], ◌∷◌, Bool, some}
use chiya.Join
use chiya.Join.{trigger_step, wait_step}
use chiya.JoinHandle.{JoinHandle, make_join_handle, ok, run, step, closure_step, join_step}
use chiya.JoinHandle.Result.{five_joins, run-joined}

abbrev registered_first : List Bool
registered_first = false ∷ false ∷ true ∷ false ∷ true ∷ true ∷ true ∷ []

abbrev no_handle : JoinHandle ℕ ℕ
no_handle = make_join_handle

run-joined_example : (run 7 five_joins (run 7 registered_first no_handle)).result ≡ some (ok 7)
unfolding run step closure_step join_step Join.step trigger_step wait_step
run-joined_example = run-joined 7 registered_first refl
