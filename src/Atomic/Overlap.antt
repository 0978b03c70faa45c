-- ===== src/Atomic/Overlap.antt =====
-- Two calls on a cell whose type has no instruction: both get the lock.
use chiya.Prelude.{ℕ, ◌≡◌, refl, ap, true, false, List, [], ◌∷◌, ◌==◌, ◌∙◌}
use chiya.Sync.SeqLock.{SeqLock}
use chiya.Atomic.{lock_index}
use chiya.Atomic.Int.{next_value, reads_again}
use chiya.Atomic.Fetch.{
  Call, Shared, Thread, ready, spinning, locked, returned, System, update, advance, step, run,
  is_native,
}
use chiya.Atomic.Alone.{update_self, if_same, ready-fallback, spinning-free, spinning-locked, spun}

abbrev pub two : Shared → Thread → Thread → System
two s t u = record { shared = s; threads = t ∷ u ∷ [] }

left_step :
    (ns : List ℕ) (s : Shared) (t u : Thread) {r : Shared × Thread}
    → advance s t ≡ r
    → run (0 ∷ ns) (two s t u) ≡ run ns (two r.0 r.1 u)
unfolding run step
left_step ns s t u e = ap (λ r. run ns (two r.0 r.1 u)) e

right_step :
    (ns : List ℕ) (s : Shared) (t u : Thread) {r : Shared × Thread}
    → advance s u ≡ r
    → run (1 ∷ ns) (two s t u) ≡ run ns (two r.0 t r.1)
unfolding run step
right_step ns s t u e = ap (λ r. run ns (two r.0 t r.1)) e

-- With the lock in hand, each thread reads before the other writes.
abbrev in_turns : List ℕ
in_turns = 0 ∷ 1 ∷ 0 ∷ 1 ∷ 0 ∷ 1 ∷ 0 ∷ 1 ∷ []

abbrev pub overlap : List ℕ
overlap = 0 ∷ 1 ∷ 0 ∷ 0 ∷ 1 ∷ in_turns

-- Both calls return the value of before, and the cell has what the second makes of that.
abbrev pub FirstLost : Call → Call → Shared → System → Type 0
FirstLost c d s r =
    (r.threads ≡ returned (s.cells c.addr) ∷ returned (s.cells c.addr) ∷ [])
    × (r.shared.cells c.addr ≡ next_value d.scalar d.fetch (s.cells c.addr) d.val)

module _ (s : Shared) (c d : Call) where
  abbrev second : Call
  second = record d { addr = c.addr }

  abbrev taken : Shared
  taken = spun s c (record { state = 1 })

  held : (taken.locks (lock_index c.addr)).state == 1 ≡ true
  held = rw (update_self s.locks (lock_index c.addr) (record { state = 1 })) refl

  -- Both threads come to have the lock.
  both_locked :
      (ns : List ℕ)
      → is_native c.scalar ≡ false
      → is_native d.scalar ≡ false
      → (s.locks (lock_index c.addr)).state == 1 ≡ false
      → run (0 ∷ 1 ∷ 0 ∷ 0 ∷ 1 ∷ ns) (two s (ready c) (ready second))
        ≡ run ns (
            two
              (spun (spun taken c (record { state = 1 })) c (record { state = 1 }))
              (locked c (record { stamp = 1 }))
              (locked second (record { stamp = 1 })))
  both_locked ns hc hd free =
      let again : Shared = spun taken c (record { state = 1 }) in
      let held' : (again.locks (lock_index c.addr)).state == 1 ≡ true =
        rw (update_self taken.locks (lock_index c.addr) (record { state = 1 })) refl in
      left_step (1 ∷ 0 ∷ 0 ∷ 1 ∷ ns) s (ready c) (ready second) (ready-fallback s c hc)
      ∙ right_step (0 ∷ 0 ∷ 1 ∷ ns) s (spinning c) (ready second) (ready-fallback s second hd)
      ∙ left_step (0 ∷ 1 ∷ ns) s (spinning c) (spinning second) (spinning-free s c free)
      ∙ left_step (1 ∷ ns) taken (spinning c) (spinning second) (spinning-locked taken c held)
      ∙ right_step ns again (locked c (record { stamp = 1 })) (spinning second)
          (spinning-locked again second held')

  in_turns-Lost :
      (locks : ℕ → SeqLock)
      → FirstLost c d s (
          run in_turns (
            two
              (record s { locks = locks })
              (locked c (record { stamp = 1 }))
              (locked second (record { stamp = 1 }))))
  unfolding run step advance
  in_turns-Lost locks = (
    refl,
    update_self (update s.cells c.addr _) c.addr _
        ∙ ap (λ x. next_value d.scalar d.fetch x d.val)
            (if_same (reads_again d.fetch) (s.cells c.addr)),
  )

  -- Two calls on one cell whose types have no instruction, where the lock of the cell is free: in
  -- some order of their steps both return the value of before, and what the first stored is lost.
  pub overlap-Lost :
      is_native c.scalar ≡ false
      → is_native d.scalar ≡ false
      → (s.locks (lock_index c.addr)).state == 1 ≡ false
      → FirstLost c d s (run overlap (two s (ready c) (ready second)))
  overlap-Lost hc hd free = rw (both_locked in_turns hc hd free) (in_turns-Lost _)
