-- ===== src/Sync/SeqLock.antt =====
-- `SeqLock` of coroutine/src/sync/seq_lock.rs, with its write guard. Each access of the atomic
-- state is one step, and the orders of the memory accesses are those of the sequence.
use chiya.Prelude.{
  ℕ, zero, suc, ◌+◌, ◌%◌, ◌^◌, ◌≡◌, ◌⊎◌, refl, Bool, true, false, List, [], ◌∷◌, ◌==◌,
  if◌then◌else◌, arith, Bool-cases, inl, inr, Option, none, some, ap, ◌∙◌,
}

pub record SeqLock : Type 0 where
  pub state : ℕ

abbrev pub new : SeqLock
new = record { state = 0 }

pub record SeqLockWriteGuard : Type 0 where
  pub stamp : ℕ

unfoldable pub optimistic_read : SeqLock → Option ℕ
optimistic_read self = if self.state == 1 then none else some self.state

unfoldable pub validate_read : SeqLock → ℕ → Bool
validate_read self stamp = self.state == stamp

-- One round of the loop of `write`: the guard where it returns, and the lock.
pub try_write : SeqLock → Option SeqLockWriteGuard × SeqLock
try_write self =
    let previous = self.state in
    if previous == 1
    then (some (record { stamp = previous }), record { state = 1 })
    else (none, record { state = 1 })

-- The loop of `write`, where no other thread comes between.
unfoldable pub write : ℕ → SeqLock → Option (SeqLockWriteGuard × SeqLock)
write zero self = none
write (suc fuel) self =
    let next = try_write self in
    elim next.0 [ some guard ↦ some (guard, next.1) | none ↦ write fuel next.1 ]

pub abort : SeqLockWriteGuard → SeqLock → SeqLock
abort self lock = record { state = self.stamp }

unfoldable pub drop : SeqLockWriteGuard → SeqLock → SeqLock
drop self lock = record { state = (self.stamp + 2) % 2 ^ 64 }

-- The lock with the guards that are held.
pub record System : Type 0 where
  pub lock : SeqLock
  pub guards : List SeqLockWriteGuard

-- A step of some thread: a round of `write`, or the end of the guard at a position.
pub data Event : Type 0 where
  try : Event
  drop_at : ℕ → Event
  abort_at : ℕ → Event

abbrev pub acquired : Option SeqLockWriteGuard → List SeqLockWriteGuard → List SeqLockWriteGuard
acquired none gs = gs
acquired (some g) gs = g ∷ gs

-- The guard at a position, and the others.
pub pick : ℕ → List SeqLockWriteGuard → Option (SeqLockWriteGuard × List SeqLockWriteGuard)
pick n [] = none
pick zero (g ∷ gs) = some (g, gs)
pick (suc n) (g ∷ gs) = elim (pick n gs) [ none ↦ none | some r ↦ some (r.0, g ∷ r.1) ]

unfoldable pub step : System → Event → System
step s try =
    let next = try_write s.lock in record { lock = next.1; guards = acquired next.0 s.guards }
step s (drop_at n) = elim (pick n s.guards) [
  | none ↦ s
  | some r ↦ record { lock = drop r.0 s.lock; guards = r.1 }
]
step s (abort_at n) = elim (pick n s.guards) [
  | none ↦ s
  | some r ↦ record { lock = abort r.0 s.lock; guards = r.1 }
]

unfoldable pub run : List Event → System → System
run [] s = s
run (e ∷ es) s = run es (step s e)

abbrev pub AllOnes : List SeqLockWriteGuard → Type 0
AllOnes [] = ◌≡◌ {A = ℕ} 0 0
AllOnes (g ∷ gs) = (g.stamp ≡ 1) × AllOnes gs

-- The states that the lock takes: new, locked, and the one stamp that a guard leaves.
abbrev pub Stamps : System → Type 0
Stamps s = ((s.lock.state ≡ 0) ⊎ ((s.lock.state ≡ 1) ⊎ (s.lock.state ≡ 3))) × AllOnes s.guards

pick-AllOnes :
    (n : ℕ) (gs : List SeqLockWriteGuard)
    → AllOnes gs
    → (pick n gs ≡ none)
      ⊎ ((g : SeqLockWriteGuard) × (rest : List SeqLockWriteGuard) × (pick n gs ≡ some (g, rest))
          × (g.stamp ≡ 1)
          × AllOnes rest)
unfolding pick
pick-AllOnes n [] h = inl refl
pick-AllOnes zero (g ∷ gs) (one, ones) = inr (g, gs, refl, one, ones)
pick-AllOnes (suc n) (g ∷ gs) (one, ones) = elim (pick-AllOnes n gs ones) [
  | inl missing ↦ inl (rw missing)
  | inr (h, rest, e, one', ones') ↦ inr (h, g ∷ rest, rw e, one', (one, ones'))
]

step-Stamps : (s : System) (e : Event) → Stamps s → Stamps (step s e)
unfolding step try_write drop abort
step-Stamps s try (st, gs) = elim (Bool-cases (s.lock.state == 1)) [
  | inl locked ↦ rw locked (inr (inl refl), (ground arith, gs))
  | inr unlocked ↦ rw unlocked (inr (inl refl), gs)
]
step-Stamps s (drop_at n) (st, gs) = elim (pick-AllOnes n s.guards gs) [
  | inl missing ↦ rw (step, missing) (st, gs)
  | inr (g, rest, e, one, ones) ↦ rw (step, e) (inr (inr (rw one)), ones)
]
step-Stamps s (abort_at n) (st, gs) = elim (pick-AllOnes n s.guards gs) [
  | inl missing ↦ rw (step, missing) (st, gs)
  | inr (g, rest, e, one, ones) ↦ rw (step, e) (inr (inl one), ones)
]

-- Whatever the threads do with a new lock, in whatever order, its state is 0, 1 or 3, and each
-- guard that is held has the stamp 1.
pub run-Stamps : (es : List Event) → Stamps (run es (record { lock = new; guards = [] }))
unfolding run
run-Stamps es = from (record { lock = new; guards = [] }) es (inl refl, refl)
  where
    from : (s : System) (es : List Event) → Stamps s → Stamps (run es s)
    from s [] h = h
    from s (e ∷ es) h = from (step s e) es (step-Stamps s e h)

pub try_write-none :
    (lock : SeqLock) → lock.state == 1 ≡ false → try_write lock ≡ (none, record { state = 1 })
unfolding try_write
try_write-none lock h = rw h

pub try_write-some :
    (lock : SeqLock)
    → lock.state == 1 ≡ true
    → try_write lock ≡ (some (record { stamp = 1 }), record { state = 1 })
unfolding try_write
try_write-some lock h =
    let one : lock.state ≡ 1 = ground arith in
    rw h (ap (λ k. (some (record { stamp = k }), record { state = 1 })) one)

write-one :
    (fuel : ℕ) (lock : SeqLock)
    → write (suc (suc fuel)) lock ≡ some (record { stamp = 1 }, record { state = 1 })
unfolding write try_write
write-one fuel lock = elim (Bool-cases (lock.state == 1)) [
  | inl locked ↦ ap next (try_write-some lock locked)
  | inr unlocked ↦ ap next (try_write-none lock unlocked) ∙ again
]
  where
    next : Option SeqLockWriteGuard × SeqLock → Option (SeqLockWriteGuard × SeqLock)
    next r = elim r.0 [ some guard ↦ some (guard, r.1) | none ↦ write (suc fuel) r.1 ]

    again :
        write (suc fuel) (record { state = 1 }) ≡ some (record { stamp = 1 }, record { state = 1 })
    again = refl

-- From any state of the lock `write` returns after two rounds at most, with the stamp 1, if no
-- other thread comes between; then `optimistic_read` refuses, and it gives 3 after the guard is
-- dropped.
pub write-some :
    (fuel : ℕ) (lock : SeqLock)
    → (g : SeqLockWriteGuard) × (locked : SeqLock) × (write (suc (suc fuel)) lock
        ≡ some (g, locked))
      × (g.stamp ≡ 1)
      × (optimistic_read locked ≡ none)
      × (optimistic_read (drop g locked) ≡ some 3)
unfolding optimistic_read drop
write-some fuel lock =
    (record { stamp = 1 }, record { state = 1 }, write-one fuel lock, refl, refl, refl)
