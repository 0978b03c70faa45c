-- ===== src/Parking.antt =====
-- `ThreadPark` of coroutine/src/sync/thread_park.rs, `Park` of coroutine/src/park.rs and the choice
-- between them in coroutine/src/sync/blocker.rs. What a thread does under the mutex is one step. A
-- wait gives the mutex back to the loop, as `Condvar` does; the code loses the guard there.
pub mod Once
mod Tests
pub mod Tokens
use chiya.Prelude.{
  ℕ, zero, suc, ◌≤◌, ◌<◌, ◌≡◌, ◌⊎◌, refl, Bool, true, false, ◌==◌, not, if◌then◌else◌, arith,
  Bool-cases, inl, inr, Option, none, some, List, [], ◌∷◌, ap, replicate,
}

-- `Result<(), ParkError>`; nothing here returns `Cancelled`.
pub data ParkResult : Type 0 where
  unparked : ParkResult
  timed_out : ParkResult

-- Where the thread that parks is: not in `park_timeout`, or in a wait, of which it is known whether
-- it has a timeout and whether it was notified, or at the end with a result.
pub data Place : Type 0 where
  outside : Place
  waiting : (timed notified : Bool) → Place
  ended : ParkResult → Place

-- The number under the mutex, and the thread.
pub record ThreadPark : Type 0 where
  pub token : ℕ
  pub place : Place

abbrev pub new_thread_park : ThreadPark
new_thread_park = record { token = 0; place = outside }

-- What happens next: a call of `park_timeout`, with a duration or without; the end of a wait by a
-- notification or for no reason, or by the timeout; a call of `unpark`.
pub data Event : Type 0 where
  park : Bool → Event
  wake : Event
  time_out : Event
  unpark : Event

-- The test of the loop, and what follows it.
abbrev pub check : Bool → ThreadPark → ThreadPark
check timed s =
    if s.token == 0
    then record s { place = waiting timed false }
    else record { token = 0; place = ended unparked }

-- `notify_one`
abbrev pub notify : Place → Place
notify outside = outside
notify (waiting timed notified) = waiting timed true
notify (ended r) = ended r

abbrev pub enter : Bool → ThreadPark → Place → ThreadPark
enter timed s outside = check timed s
enter timed s (waiting t n) = s
enter timed s (ended r) = check timed s

abbrev pub end_wait : ThreadPark → Place → ThreadPark
end_wait s outside = s
end_wait s (waiting timed notified) = check timed s
end_wait s (ended r) = s

abbrev pub end_time : ThreadPark → Place → ThreadPark
end_time s outside = s
end_time s (waiting true notified) = record { token = 0; place = ended timed_out }
end_time s (waiting false notified) = s
end_time s (ended r) = s

unfoldable pub step : ThreadPark → Event → ThreadPark
step s (park timed) = enter timed s s.place
step s wake = end_wait s s.place
step s time_out = end_time s s.place
step s unpark = if s.token == 0 then record { token = 1; place = notify s.place } else s

unfoldable pub run : List Event → ThreadPark → ThreadPark
run [] s = s
run (e ∷ es) s = run es (step s e)

-- A coroutine that waits, and the flags. `wait_coroutine` is shared with the timer, which is not in
-- the sources.
pub record Park : Type 0 where
  pub wait_coroutine : Option ℕ
  pub state : Bool
  pub check_cancel : Bool

abbrev pub new_park : Park
new_park = record { wait_coroutine = none; state = false; check_cancel = true }

unfoldable pub ignore_cancel : Bool → Park → Park
ignore_cancel ignore self = record self { check_cancel = not ignore }

-- What becomes of the coroutine.
pub data Resumed : Type 0 where
  ran : ℕ → Resumed
  scheduled : ℕ → Resumed
  nothing : Resumed

pub wake_up : Bool → Park → Resumed × Park
wake_up b_sync self = elim self.wait_coroutine [
  | none ↦ (nothing, self)
  | some c ↦ (if b_sync then ran c else scheduled c, record self { wait_coroutine = none })
]

pub unpark_coroutine : Park → Resumed × Park
unpark_coroutine self =
    if self.state then (nothing, self) else wake_up false (record self { state = true })

-- `Blocker::new`
pub data Parker : Type 0 where
  coroutine : Park → Parker
  thread : ThreadPark → Parker

unfoldable pub new_blocker : Bool → Bool → Parker
new_blocker is_coroutine ignore =
    if is_coroutine then coroutine (ignore_cancel ignore new_park) else thread new_thread_park
