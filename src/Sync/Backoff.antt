-- ===== src/Sync/Backoff.antt =====
-- `Backoff` of coroutine/src/sync/backoff.rs.
use chiya.Prelude.{
  ℕ, ◌+◌, ◌≤◌, ◌^◌, ◌≡◌, Bool, false, List, [], ◌∷◌, min, ltb, leb, if◌then◌else◌, arith,
  Bool-cases, inl, inr,
}

abbrev pub spin_limit : ℕ
spin_limit = 6

abbrev pub yield_limit : ℕ
yield_limit = 10

pub record Backoff : Type 0 where
  pub step : ℕ

abbrev pub new : Backoff
new = record { step = 0 }

pub data Call : Type 0 where
  reset spin snooze : Call

-- How many times a call gives way: `spin_loop` hints, or a yield of the thread.
pub data Wait : Type 0 where
  nothing : Wait
  spin_loop : ℕ → Wait
  yield_now : Wait

unfoldable pub wait : Backoff → Call → Wait
wait self reset = nothing
wait self spin = spin_loop (2 ^ min self.step spin_limit)
wait self snooze = if leb self.step spin_limit then spin_loop 1 else yield_now

pub after : Backoff → Call → Backoff
after self reset = record { step = 0 }
after self spin = if leb self.step spin_limit then record { step = self.step + 1 } else self
after self snooze = if ltb self.step yield_limit then record { step = self.step + 1 } else self

pub is_completed : Backoff → Bool
is_completed self = ltb yield_limit self.step

-- A sequence of calls.
unfoldable pub run : List Call → Backoff → Backoff
run [] self = self
run (call ∷ calls) self = run calls (after self call)

after-le : (b : Backoff) (call : Call) → b.step ≤ yield_limit → (after b call).step ≤ yield_limit
unfolding after
after-le b reset h = omega arith
after-le b spin h = elim (Bool-cases (leb b.step spin_limit)) [
  | inl more ↦ rw more (ground arith)
  | inr over ↦ rw over h
]
after-le b snooze h = elim (Bool-cases (ltb b.step yield_limit)) [
  | inl more ↦ rw more (ground arith)
  | inr over ↦ rw over h
]

run-le : (calls : List Call) (b : Backoff) → b.step ≤ yield_limit → (run calls b).step ≤ yield_limit
unfolding run
run-le [] b h = h
run-le (call ∷ calls) b h = run-le calls (after b call) (after-le b call h)

-- Whatever is called on a new `Backoff`, in whatever order, its step is `YIELD_LIMIT` at most and
-- `is_completed` is `false`.
pub is_completed-run :
    (calls : List Call)
    → ((run calls new).step ≤ yield_limit) × (is_completed (run calls new) ≡ false)
unfolding is_completed
is_completed-run calls = let h = run-le calls new (omega arith) in (h, ground arith)
