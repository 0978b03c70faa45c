-- ===== src/Parking/Once.antt =====
-- The calls of `Park::unpark` (coroutine/src/park.rs), one after the other.
use chiya.Prelude.{
  ℕ, zero, suc, ◌≡◌, refl, Bool, true, false, none, some, List, [], ◌∷◌, ap, replicate,
}
use chiya.Parking.{Park, Resumed, scheduled, nothing, wake_up, unpark_coroutine}

-- What the calls of `unpark` one after the other do.
pub unpark_times : ℕ → Park → List Resumed
unpark_times zero self = []
unpark_times (suc n) self = let r = unpark_coroutine self in r.0 ∷ unpark_times n r.1

set-nothing : (n : ℕ) (self : Park) → self.state ≡ true → unpark_times n self ≡ replicate n nothing
unfolding unpark_times unpark_coroutine
set-nothing zero self set = refl
set-nothing (suc n) self set =
    rw set (ap (λ l. nothing ∷ l) (set-nothing n (record self { state = true }) refl))

-- However often `unpark` is called where the state is false and a coroutine waits, the first call
-- schedules it, and the others do nothing.
pub unpark_times-once :
    (n c : ℕ) (check_cancel : Bool)
    → unpark_times
        (suc n)
        (record { wait_coroutine = some c; state = false; check_cancel = check_cancel })
      ≡ scheduled c ∷ replicate n nothing
unfolding unpark_times unpark_coroutine wake_up
unpark_times-once n c check_cancel =
    ap (λ l. scheduled c ∷ l)
      (set-nothing n (record { wait_coroutine = none; state = true; check_cancel = check_cancel })
        refl)
