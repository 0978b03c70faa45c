-- ===== src/Join.antt =====
-- `Join` of coroutine/src/join.rs: the thread that triggers and the one that waits, as sequences of
-- atomic accesses. The blocker that is parked and unparked has a token, as that of
-- coroutine/src/sync/thread_park.rs: `unpark` sets it, and `park` returns where it is set and takes it.
use chiya.Prelude.{◌≡◌, refl, Bool, true, false, List, [], ◌∷◌}

-- Where the thread in `trigger` is: the next access, or the end.
pub data Trigger : Type 0 where
  store_state : Trigger
  take_blocker : Trigger
  unpark : Trigger
  triggered : Trigger

-- Where the thread in `wait` is.
pub data Wait : Type 0 where
  load_state : Wait
  register : Wait
  load_again : Wait
  park : Wait
  unregister : Wait
  returned : Wait

-- `Join` with the token of the blocker and the two threads; `to_wake` says whether it has one.
pub record System : Type 0 where
  pub state : Bool
  pub to_wake : Bool
  pub token : Bool
  pub trigger : Trigger
  pub wait : Wait

-- `Join::new`, before the two calls.
abbrev pub start : System
start = record {
  state = true;
  to_wake = false;
  token = false;
  trigger = store_state;
  wait = load_state;
}

-- The next access of `trigger`.
unfoldable pub trigger_step : Trigger → System → System
trigger_step store_state s = record s { state = false; trigger = take_blocker }
trigger_step take_blocker s = elim s.to_wake [
  | true ↦ record s { to_wake = false; trigger = unpark }
  | false ↦ record s { to_wake = false; trigger = triggered }
]
trigger_step unpark s = record s { token = true; trigger = triggered }
trigger_step triggered s = s

-- The next access of `wait`; where it is parked and there is no token it stays.
unfoldable pub wait_step : Wait → System → System
wait_step load_state s = elim s.state [
  | true ↦ record s { wait = register }
  | false ↦ record s { wait = returned }
]
wait_step register s = record s { to_wake = true; wait = load_again }
wait_step load_again s = elim s.state [
  | true ↦ record s { wait = park }
  | false ↦ record s { wait = unregister }
]
wait_step park s = elim s.token [ true ↦ record s { token = false; wait = returned } | false ↦ s ]
wait_step unregister s = record s { to_wake = false; wait = returned }
wait_step returned s = s

pub data Thread : Type 0 where
  trigger_thread : Thread
  wait_thread : Thread

unfoldable pub step : Thread → System → System
step trigger_thread s = trigger_step s.trigger s
step wait_thread s = wait_step s.wait s

-- The threads move in the order of the list.
unfoldable pub run : List Thread → System → System
run [] s = s
run (t ∷ ts) s = run ts (step t s)

abbrev pub system : Bool → Bool → Bool → Trigger → Wait → System
system state to_wake token trigger wait = record {
  state = state;
  to_wake = to_wake;
  token = token;
  trigger = trigger;
  wait = wait;
}

-- The states that the two threads come to. A waiter is parked only while it is registered, or about
-- to be unparked, or with the token.
pub data Reached : System → Type 0 where
  waiting : Reached (system true false false store_state load_state)
  waiting_loaded : Reached (system true false false store_state register)
  waiting_registered : Reached (system true true false store_state load_again)
  waiting_parked : Reached (system true true false store_state park)
  stored : Reached (system false false false take_blocker load_state)
  stored_loaded : Reached (system false false false take_blocker register)
  stored_registered : Reached (system false true false take_blocker load_again)
  stored_parked : Reached (system false true false take_blocker park)
  stored_seen : Reached (system false true false take_blocker unregister)
  stored_returned : Reached (system false false false take_blocker returned)
  found_registered : Reached (system false false false unpark load_again)
  found_parked : Reached (system false false false unpark park)
  found_seen : Reached (system false false false unpark unregister)
  found_returned : Reached (system false false false unpark returned)
  done : Reached (system false false false triggered load_state)
  done_loaded : Reached (system false false false triggered register)
  done_registered : Reached (system false true false triggered load_again)
  done_seen : Reached (system false true false triggered unregister)
  done_returned : Reached (system false false false triggered returned)
  unparked_registered : Reached (system false false true triggered load_again)
  unparked_parked : Reached (system false false true triggered park)
  unparked_seen : Reached (system false false true triggered unregister)
  unparked_returned : Reached (system false false true triggered returned)

pub trigger_step-Reached : (s : System) → Reached s → Reached (step trigger_thread s)
unfolding step trigger_step
trigger_step-Reached _ waiting = stored
trigger_step-Reached _ waiting_loaded = stored_loaded
trigger_step-Reached _ waiting_registered = stored_registered
trigger_step-Reached _ waiting_parked = stored_parked
trigger_step-Reached _ stored = done
trigger_step-Reached _ stored_loaded = done_loaded
trigger_step-Reached _ stored_registered = found_registered
trigger_step-Reached _ stored_parked = found_parked
trigger_step-Reached _ stored_seen = found_seen
trigger_step-Reached _ stored_returned = done_returned
trigger_step-Reached _ found_registered = unparked_registered
trigger_step-Reached _ found_parked = unparked_parked
trigger_step-Reached _ found_seen = unparked_seen
trigger_step-Reached _ found_returned = unparked_returned
trigger_step-Reached _ done = done
trigger_step-Reached _ done_loaded = done_loaded
trigger_step-Reached _ done_registered = done_registered
trigger_step-Reached _ done_seen = done_seen
trigger_step-Reached _ done_returned = done_returned
trigger_step-Reached _ unparked_registered = unparked_registered
trigger_step-Reached _ unparked_parked = unparked_parked
trigger_step-Reached _ unparked_seen = unparked_seen
trigger_step-Reached _ unparked_returned = unparked_returned

pub wait_step-Reached : (s : System) → Reached s → Reached (step wait_thread s)
unfolding step wait_step
wait_step-Reached _ waiting = waiting_loaded
wait_step-Reached _ waiting_loaded = waiting_registered
wait_step-Reached _ waiting_registered = waiting_parked
wait_step-Reached _ waiting_parked = waiting_parked
wait_step-Reached _ stored = stored_returned
wait_step-Reached _ stored_loaded = stored_registered
wait_step-Reached _ stored_registered = stored_seen
wait_step-Reached _ stored_parked = stored_parked
wait_step-Reached _ stored_seen = stored_returned
wait_step-Reached _ stored_returned = stored_returned
wait_step-Reached _ found_registered = found_seen
wait_step-Reached _ found_parked = found_parked
wait_step-Reached _ found_seen = found_returned
wait_step-Reached _ found_returned = found_returned
wait_step-Reached _ done = done_returned
wait_step-Reached _ done_loaded = done_registered
wait_step-Reached _ done_registered = done_seen
wait_step-Reached _ done_seen = done_returned
wait_step-Reached _ done_returned = done_returned
wait_step-Reached _ unparked_registered = unparked_seen
wait_step-Reached _ unparked_parked = done_returned
wait_step-Reached _ unparked_seen = unparked_returned
wait_step-Reached _ unparked_returned = unparked_returned

run-Reached : (ts : List Thread) (s : System) → Reached s → Reached (run ts s)
unfolding run
run-Reached [] s r = r
run-Reached (trigger_thread ∷ ts) s r = run-Reached ts _ (trigger_step-Reached s r)
run-Reached (wait_thread ∷ ts) s r = run-Reached ts _ (wait_step-Reached s r)

returned-state : (s : System) → Reached s → s.wait ≡ returned → s.state ≡ false
returned-state _ waiting e = cc
returned-state _ waiting_loaded e = cc
returned-state _ waiting_registered e = cc
returned-state _ waiting_parked e = cc
returned-state _ _ e = refl

-- Four accesses of the thread that waits.
abbrev pub four_waits : List Thread
four_waits = wait_thread ∷ wait_thread ∷ wait_thread ∷ wait_thread ∷ []

four_waits-returned :
    (s : System) → Reached s → s.trigger ≡ triggered → (run four_waits s).wait ≡ returned
unfolding run step wait_step
four_waits-returned _ waiting e = cc
four_waits-returned _ waiting_loaded e = cc
four_waits-returned _ waiting_registered e = cc
four_waits-returned _ waiting_parked e = cc
four_waits-returned _ stored e = cc
four_waits-returned _ stored_loaded e = cc
four_waits-returned _ stored_registered e = cc
four_waits-returned _ stored_parked e = cc
four_waits-returned _ stored_seen e = cc
four_waits-returned _ stored_returned e = cc
four_waits-returned _ found_registered e = cc
four_waits-returned _ found_parked e = cc
four_waits-returned _ found_seen e = cc
four_waits-returned _ found_returned e = cc
four_waits-returned _ done e = refl
four_waits-returned _ done_loaded e = refl
four_waits-returned _ done_registered e = refl
four_waits-returned _ done_seen e = refl
four_waits-returned _ done_returned e = refl
four_waits-returned _ unparked_registered e = refl
four_waits-returned _ unparked_parked e = refl
four_waits-returned _ unparked_seen e = refl
four_waits-returned _ unparked_returned e = refl

-- However the accesses of a `trigger` and of a `wait` on a new `Join` follow each other, once the
-- trigger is through, `wait` has returned after four more accesses of its own: no wake-up is lost.
pub run-returned :
    (ts : List Thread)
    → (run ts start).trigger ≡ triggered
    → (run four_waits (run ts start)).wait ≡ returned
run-returned ts e = four_waits-returned (run ts start) (run-Reached ts start waiting) e

-- However the accesses of a `trigger` and of a `wait` on a new `Join` follow each other, where
-- `wait` has returned the state is false: the coroutine is done.
pub run-state : (ts : List Thread) → (run ts start).wait ≡ returned → (run ts start).state ≡ false
run-state ts e = returned-state (run ts start) (run-Reached ts start waiting) e
