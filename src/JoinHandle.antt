-- ===== src/JoinHandle.antt =====
-- `JoinHandle` of coroutine/src/join_handle.rs over the `Join` that it shares with the coroutine, and
-- the closure of coroutine/src/builder.rs that the coroutine runs, where its function returns a value.
pub mod Result
mod Tests
use chiya.Prelude.{
  ◌≡◌, ◌⊎◌, refl, sym, ap, ◌∙◌, Bool, true, false, not, Option, none, some, List, [], ◌∷◌, inl, inr,
  Bool-cases, Option-cases,
}
use chiya.Join
use chiya.Join.{
  System, Wait, load_state, register, load_again, park, unregister, returned, trigger_thread,
  wait_thread, Reached, trigger_step-Reached, wait_step-Reached, triggered, store_state,
  trigger_step, wait_step,
}

-- What `join` returns: the value, what the coroutine panicked with, or `Error::Cancel`.
pub data JoinResult (V P : Type 0) : Type 0 where
  ok : V → JoinResult V P
  panicked : P → JoinResult V P
  cancelled : JoinResult V P

-- The shared resources, whether the closure has stored its value, and what `join` has returned.
pub record JoinHandle (V P : Type 0) : Type 0 where
  pub join : System
  pub packet : Option V
  pub panic : Option P
  pub stored : Bool
  pub result : Option (JoinResult V P)

abbrev pub is_returned : Wait → Bool
is_returned returned = true
is_returned other = false

module _ {V P : Type 0} where
  -- `make_join_handle`, of new resources.
  abbrev pub make_join_handle : JoinHandle V P
  make_join_handle = record {
    join = Join.start;
    packet = none;
    panic = none;
    stored = false;
    result = none;
  }

  unfoldable pub is_done : JoinHandle V P → Bool
  is_done self = not self.join.state

  -- The result from what is taken out of the packet and of the panic.
  pub result_of : Option V → Option P → JoinResult V P
  result_of (some v) panic = ok v
  result_of none (some p) = panicked p
  result_of none none = cancelled

  -- An access of the closure, of which the function has returned `v`.
  pub closure_step : V → JoinHandle V P → JoinHandle V P
  closure_step v self = elim self.stored [
    | false ↦ record self { packet = some v; stored = true }
    | true ↦ record self { join = Join.step trigger_thread self.join }
  ]

  -- An access of the thread that joins.
  pub join_step : JoinHandle V P → JoinHandle V P
  join_step self = elim self.result [
    | some r ↦ self
    | none ↦ elim (is_returned self.join.wait) [
      | false ↦ record self { join = Join.step wait_thread self.join }
      | true ↦ record self { packet = none; result = some (result_of self.packet self.panic) }
    ]
  ]

  -- The closure moves, or the thread that joins.
  unfoldable pub step : V → Bool → JoinHandle V P → JoinHandle V P
  step v true self = closure_step v self
  step v false self = join_step self

  unfoldable pub run : V → List Bool → JoinHandle V P → JoinHandle V P
  run v [] self = self
  run v (t ∷ ts) self = run v ts (step v t self)
