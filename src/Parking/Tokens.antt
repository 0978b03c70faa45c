-- ===== src/Parking/Tokens.antt =====
-- The token of coroutine/src/sync/thread_park.rs, against what is seen of the calls.
use chiya.Prelude.{
  ℕ, ◌≤◌, ◌≡◌, ◌⊎◌, refl, sym, Bool, true, false, ◌==◌, arith, Bool-cases, inl, inr, List, [], ◌∷◌,
}
use mathlib.Core.Path.{subst}
use chiya.Parking.{
  ParkResult, unparked, timed_out, outside, waiting, ended, ThreadPark, Place, new_thread_park,
  Event, park, wake, time_out, unpark, check, notify, enter, end_wait, end_time, step, run,
}

-- What is seen of the calls: that `unpark` was called, and with what `park_timeout` returned; the
-- last first.
pub data Seen : Type 0 where
  called : Seen
  returned : ParkResult → Seen

-- A call is over where the thread is at the end.
abbrev finish : Place → List Seen → List Seen
finish outside seen = seen
finish (waiting timed notified) seen = seen
finish (ended r) seen = returned r ∷ seen

abbrev after_call : (before after : Place) → List Seen → List Seen
after_call outside after seen = finish after seen
after_call (waiting timed notified) after seen = seen
after_call (ended r) after seen = finish after seen

abbrev after_wait : (before after : Place) → List Seen → List Seen
after_wait outside after seen = seen
after_wait (waiting timed notified) after seen = finish after seen
after_wait (ended r) after seen = seen

pub observe : Event → (before after : Place) → List Seen → List Seen
observe (park timed) before after seen = after_call before after seen
observe wake before after seen = after_wait before after seen
observe time_out before after seen = after_wait before after seen
observe unpark before after seen = called ∷ seen

-- The state after the events, and what was seen.
pub watch : List Event → ThreadPark → List Seen → ThreadPark × List Seen
watch [] s seen = (s, seen)
watch (e ∷ es) s seen = let s' = step s e in watch es s' (observe e s.place s'.place seen)

-- Whether `unpark` was called since `park_timeout` last returned.
abbrev pub pending : List Seen → ℕ
pending [] = 0
pending (called ∷ seen) = 1
pending (returned r ∷ seen) = 0

-- Before each `Ok` there is a call of `unpark` that no return came after.
abbrev pub Justified : List Seen → Type 0
Justified [] = Unit {0}
Justified (called ∷ seen) = Justified seen
Justified (returned unparked ∷ seen) = (pending seen ≡ 1) × Justified seen
Justified (returned timed_out ∷ seen) = Justified seen

-- A thread that waits while the token is there has been notified.
abbrev pub Noted : ℕ → Place → Type 0
Noted token outside = Unit {0}
Noted token (waiting timed notified) = (token ≡ 0) ⊎ (notified ≡ true)
Noted token (ended r) = Unit {0}

abbrev pub Told : ThreadPark → List Seen → Type 0
Told s seen = (s.token ≡ pending seen) × Justified seen × Noted s.token s.place

pending_le : (seen : List Seen) → pending seen ≤ 1
pending_le [] = omega arith
pending_le (called ∷ seen) = omega arith
pending_le (returned r ∷ seen) = omega arith

check-Told :
    (timed : Bool) (s : ThreadPark) (seen : List Seen)
    → Told s seen
    → Told (check timed s) (finish (check timed s).place seen)
check-Told timed s seen (token, just, noted) = elim (Bool-cases (s.token == 0)) [
  | inl no_token ↦ rw no_token (token, just, inl (ground arith))
  | inr some_token ↦
      let le = pending_le seen in
      let one : pending seen ≡ 1 = ground arith in rw some_token (refl, (one, just), tt)
]

call-Told :
    (timed : Bool) (s : ThreadPark) (seen : List Seen) (place : Place)
    → Told s seen
    → Told (enter timed s place) (after_call place (enter timed s place).place seen)
call-Told timed s seen outside h = check-Told timed s seen h
call-Told timed s seen (waiting t n) h = h
call-Told timed s seen (ended r) h = check-Told timed s seen h

wake-Told :
    (s : ThreadPark) (seen : List Seen) (place : Place)
    → Told s seen
    → Told (end_wait s place) (after_wait place (end_wait s place).place seen)
wake-Told s seen outside h = h
wake-Told s seen (waiting timed n) h = check-Told timed s seen h
wake-Told s seen (ended r) h = h

time_out-Told :
    (s : ThreadPark) (seen : List Seen) (place : Place)
    → s.place ≡ place
    → Told s seen
    → Told (end_time s place) (after_wait place (end_time s place).place seen)
time_out-Told s seen outside e h = h
time_out-Told s seen (waiting true n) e h = (refl, h.1, tt)
time_out-Told s seen (waiting false n) e h = subst (λ place. Told s (finish place seen)) (sym e) h
time_out-Told s seen (ended r) e h = h

notify-Noted : (place : Place) → Noted 1 (notify place)
notify-Noted outside = tt
notify-Noted (waiting timed n) = inr refl
notify-Noted (ended r) = tt

step-Told :
    (s : ThreadPark) (e : Event) (seen : List Seen)
    → Told s seen
    → Told (step s e) (observe e s.place (step s e).place seen)
unfolding step observe
step-Told s (park timed) seen h = call-Told timed s seen s.place h
step-Told s wake seen h = wake-Told s seen s.place h
step-Told s time_out seen h = time_out-Told s seen s.place refl h
step-Told s unpark seen (token, just, noted) = elim (Bool-cases (s.token == 0)) [
  | inl no_token ↦ rw (no_token, step) (refl, just, notify-Noted s.place)
  | inr some_token ↦
      let le = pending_le seen in
      let one : s.token ≡ 1 = ground arith in rw (some_token, step) (one, just, noted)
]

-- With the guard that a wait gives back kept for the loop, where the code drops it and does not
-- compile: whatever is called on a new `ThreadPark` and however its waits end, the token is 1
-- exactly where `unpark` was called since `park_timeout` last returned, and 0 otherwise; before
-- each `Ok` there is such a call; and a thread that waits while the token is there has been
-- notified. A return by the timeout uses up the token too.
pub watch-Told : (es : List Event) → let (s, seen) = watch es new_thread_park [] in Told s seen
unfolding watch
watch-Told es = from es new_thread_park [] (refl, tt, tt)
  where
    from :
        (es : List Event) (s : ThreadPark) (seen : List Seen)
        → Told s seen
        → Told (watch es s seen).0 (watch es s seen).1
    from [] s seen h = h
    from (e ∷ es) s seen h =
        from es (step s e) (observe e s.place (step s e).place seen) (step-Told s e seen h)

step-token : (s : ThreadPark) → (step s unpark).token == 0 ≡ false
unfolding step
step-token s = elim (Bool-cases (s.token == 0)) [
  | inl no_token ↦ rw (no_token, step) refl
  | inr token ↦ rw (token, step) token
]

check-unparked :
    (timed : Bool) (s : ThreadPark)
    → s.token == 0 ≡ false
    → check timed s ≡ record { token = 0; place = ended unparked }
check-unparked timed s token = rw token refl

served :
    (timed : Bool) (token : ℕ) (place : Place)
    → token == 0 ≡ false
    → let s : ThreadPark = record { token = token; place = place } in
      end_wait (enter timed s place) (enter timed s place).place
      ≡ record { token = 0; place = ended unparked }
served timed token outside there = rw there refl
served timed token (waiting t n) there = rw there refl
served timed token (ended r) there = rw there refl

-- From any state, after an `unpark` a call of `park_timeout`, if the thread is in none, and the
-- end of a wait, if it is in one, lead to the result `Ok`, with the token used up.
pub unpark-unparked :
    (s : ThreadPark) (timed : Bool)
    → run (unpark ∷ park timed ∷ wake ∷ []) s ≡ record { token = 0; place = ended unparked }
unfolding run step
unpark-unparked s timed = let s' = step s unpark in served timed s'.token s'.place (step-token s)
