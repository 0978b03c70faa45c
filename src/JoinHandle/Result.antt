-- ===== src/JoinHandle/Result.antt =====
-- What the thread that joins a coroutine comes to (coroutine/src/join_handle.rs).
use chiya.Prelude.{
  ◌≡◌, ◌⊎◌, refl, ◌∙◌, Bool, true, false, Option, none, some, List, [], ◌∷◌, inl, inr, Bool-cases,
}
use chiya.Join
use chiya.Join.{
  System, Wait, load_state, register, load_again, park, unregister, returned, trigger_thread,
  wait_thread, Reached, trigger_step-Reached, wait_step-Reached, triggered, store_state,
  trigger_step, wait_step,
}
use chiya.JoinHandle.{
  ok, JoinHandle, make_join_handle, result_of, is_returned, closure_step, join_step, step, run,
}

-- Before the state of the join is set, `wait` has not returned, and no access of it sets it.
not_returned : (s : System) → Reached s → s.trigger ≡ store_state → is_returned s.wait ≡ false
not_returned _ Reached.waiting e = refl
not_returned _ Reached.waiting_loaded e = refl
not_returned _ Reached.waiting_registered e = refl
not_returned _ Reached.waiting_parked e = refl
not_returned _ _ e = cc

wait-trigger : (s : System) → (Join.step wait_thread s).trigger ≡ s.trigger
unfolding Join.step wait_step
wait-trigger s = kept s.wait
  where
    kept : (w : Wait) → (wait_step w s).trigger ≡ s.trigger
    kept load_state = elim (Bool-cases s.state) [
      | inl set ↦ rw (set, wait_step) refl
      | inr unset ↦ rw (unset, wait_step) refl
    ]
    kept register = refl
    kept load_again = elim (Bool-cases s.state) [
      | inl set ↦ rw (set, wait_step) refl
      | inr unset ↦ rw (unset, wait_step) refl
    ]
    kept park = elim (Bool-cases s.token) [
      | inl set ↦ rw (set, wait_step) refl
      | inr unset ↦ rw (unset, wait_step) refl
    ]
    kept unregister = refl
    kept returned = refl

-- The states of a handle of which the function returns `v`: before the value is stored, while it is
-- in the packet, and once it is taken.
data Reaches {V P : Type 0} (v : V) : JoinHandle V P → Type 0 where
  before :
      (join : System) (panic : Option P)
      → Reached join
      → join.trigger ≡ store_state
      → Reaches v
          (record { join = join; packet = none; panic = panic; stored = false; result = none })
  held :
      (join : System) (panic : Option P)
      → Reached join
      → Reaches v
          (record { join = join; packet = some v; panic = panic; stored = true; result = none })
  taken :
      (join : System) (panic : Option P)
      → Reached join
      → Reaches v (record {
        join = join;
        packet = none;
        panic = panic;
        stored = true;
        result = some (ok v);
      })

module _ {V P : Type 0} (v : V) where
  closure_step-Reaches : (s : JoinHandle V P) → Reaches v s → Reaches v (closure_step v s)
  unfolding closure_step
  closure_step-Reaches _ (before join panic r e) = held join panic r
  closure_step-Reaches _ (held join panic r) =
      held (Join.step trigger_thread join) panic (trigger_step-Reached join r)
  closure_step-Reaches _ (taken join panic r) =
      taken (Join.step trigger_thread join) panic (trigger_step-Reached join r)

  join_step-Reaches : (s : JoinHandle V P) → Reaches v s → Reaches v (join_step s)
  unfolding join_step result_of
  join_step-Reaches _ (before join panic r e) =
      let waits = not_returned join r e in
      rw (waits, join_step)
        (before (Join.step wait_thread join) panic (wait_step-Reached join r)
          (wait-trigger join ∙ e))
  join_step-Reaches _ (held join panic r) = elim (Bool-cases (is_returned join.wait)) [
    | inl over ↦ rw (over, join_step) (taken join panic r)
    | inr waits ↦
        rw (waits, join_step) (held (Join.step wait_thread join) panic (wait_step-Reached join r))
  ]
  join_step-Reaches _ (taken join panic r) = taken join panic r

  run-Reaches : (ts : List Bool) (s : JoinHandle V P) → Reaches v s → Reaches v (run v ts s)
  unfolding run step
  run-Reaches [] s r = r
  run-Reaches (true ∷ ts) s r = run-Reaches ts _ (closure_step-Reaches s r)
  run-Reaches (false ∷ ts) s r = run-Reaches ts _ (join_step-Reaches s r)

  new-Reaches : Reaches {P = P} v make_join_handle
  new-Reaches = before Join.start none Reached.waiting refl

  Reaches-result : (s : JoinHandle V P) → Reaches v s → (s.result ≡ none) ⊎ (s.result ≡ some (ok v))
  Reaches-result _ (before join panic r e) = inl refl
  Reaches-result _ (held join panic r) = inl refl
  Reaches-result _ (taken join panic r) = inr refl

-- Five accesses of the thread that joins.
abbrev pub five_joins : List Bool
five_joins = false ∷ false ∷ false ∷ false ∷ false ∷ []

module _ {V P : Type 0} (v : V) where
  abbrev holding : System → Option P → JoinHandle V P
  holding join panic = record {
    join = join;
    packet = some v;
    panic = panic;
    stored = true;
    result = none;
  }

  -- Once the trigger is through, the thread that joins comes to the result.
  five_joins-held :
      (panic : Option P) (join : System)
      → Reached join
      → join.trigger ≡ triggered
      → (run v five_joins (holding join panic)).result ≡ some (ok v)
  unfolding run step join_step result_of Join.step wait_step
  five_joins-held panic _ Reached.waiting e = cc
  five_joins-held panic _ Reached.waiting_loaded e = cc
  five_joins-held panic _ Reached.waiting_registered e = cc
  five_joins-held panic _ Reached.waiting_parked e = cc
  five_joins-held panic _ Reached.stored e = cc
  five_joins-held panic _ Reached.stored_loaded e = cc
  five_joins-held panic _ Reached.stored_registered e = cc
  five_joins-held panic _ Reached.stored_parked e = cc
  five_joins-held panic _ Reached.stored_seen e = cc
  five_joins-held panic _ Reached.stored_returned e = cc
  five_joins-held panic _ Reached.found_registered e = cc
  five_joins-held panic _ Reached.found_parked e = cc
  five_joins-held panic _ Reached.found_seen e = cc
  five_joins-held panic _ Reached.found_returned e = cc
  five_joins-held panic _ Reached.done e = refl
  five_joins-held panic _ Reached.done_loaded e = refl
  five_joins-held panic _ Reached.done_registered e = refl
  five_joins-held panic _ Reached.done_seen e = refl
  five_joins-held panic _ Reached.done_returned e = refl
  five_joins-held panic _ Reached.unparked_registered e = refl
  five_joins-held panic _ Reached.unparked_parked e = refl
  five_joins-held panic _ Reached.unparked_seen e = refl
  five_joins-held panic _ Reached.unparked_returned e = refl

  five_joins-result :
      (s : JoinHandle V P)
      → Reaches v s
      → s.join.trigger ≡ triggered
      → (run v five_joins s).result ≡ some (ok v)
  unfolding run step join_step
  five_joins-result _ (before join panic r e) t = cc
  five_joins-result _ (held join panic r) t = five_joins-held panic join r t
  five_joins-result _ (taken join panic r) t = refl

  -- However the accesses of the closure of a coroutine that returns `v` and of a thread that joins it
  -- follow each other: `join` has not returned yet or has returned `Ok(v)`, never the error of a
  -- cancellation.
  pub run-result :
      (ts : List Bool)
      → let s = run v ts (make_join_handle {V = V} {P = P}) in
        (s.result ≡ none) ⊎ (s.result ≡ some (ok v))
  run-result ts = Reaches-result v _ (run-Reaches v ts make_join_handle (new-Reaches v))

  -- However the accesses of the closure of a coroutine that returns `v` and of a thread that joins
  -- it follow each other, once the closure is through, `join` has returned `Ok(v)` after five more
  -- accesses of its thread.
  pub run-joined :
      (ts : List Bool)
      → (run v ts (make_join_handle {V = V} {P = P})).join.trigger ≡ triggered
      → (run v five_joins (run v ts (make_join_handle {V = V} {P = P}))).result ≡ some (ok v)
  run-joined ts = five_joins-result _ (run-Reaches v ts make_join_handle (new-Reaches v))
