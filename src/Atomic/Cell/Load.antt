-- ===== src/Atomic/Cell/Load.antt =====
-- The load of `fetch_update` (`AtomicCell::load` of coroutine/src/sync/atomic_cell.rs) ends.
use chiya.Prelude.{
  ℕ, zero, suc, ◌+◌, ◌*◌, ◌≤◌, ◌<◌, ◌≡◌, ◌⊎◌, refl, sym, ap, true, false, Option, none, some, arith,
  inl, inr, Option-cases, Bool-cases, ◌∙◌, dec_lt, List, [], ◌∷◌, ◌++◌, length, ◌==◌, length-append,
  get_elem?,
}
use chiya.Sync.SeqLock.{SeqLock, SeqLockWriteGuard, optimistic_read, validate_read}
use chiya.Atomic.{Layout, is_lock_free}
use chiya.Atomic.Words.{Cell, Loader, to_load, reading, load_waits, copying, loaded, load_step}
use chiya.Atomic.Steps.{get_elem?_end, reading-some}
use chiya.Atomic.Cell.{found_at, result_of, load_access, before, load_from}
use chiya.Atomic.Cell.Access.{
  load_step-words, to_load-busy, to_load-started, reading-valid, reading-stale, load_waits-taken,
  load_waits-free, copying-word, copying-over, load_access-locked, load_access-native,
}

abbrev pub KeepsSize : (ℕ → List ℕ → List ℕ) → Type 0
KeepsSize others = (n : ℕ) (words : List ℕ) → length (others n words) ≡ length words

-- No other thread moves the lock after the access `k`.
abbrev pub Settled : (ℕ → SeqLock → SeqLock) → ℕ → Type 0
Settled lock_moves k = (n : ℕ) → k < n → (lock : SeqLock) → lock_moves n lock ≡ lock

module _ (t : Layout) (others : ℕ → List ℕ → List ℕ) (lock_moves : ℕ → SeqLock → SeqLock)
    (sizes : KeepsSize others) where
  -- A load that ends, with the content that its last access finds.
  abbrev pub Ends : List ℕ → Option (ℕ × Cell × List ℕ) → Type 0
  Ends start o =
      (at : ℕ) × (cell : Cell) × (value : List ℕ) × (o ≡ some (at, cell, value))
      × (cell.words ≡ found_at others start at)

  then_load : ℕ → ℕ → Cell × Loader → Option (ℕ × Cell × List ℕ)
  then_load fuel n r = elim (result_of r.1) [
    | some got ↦ some (n, r.0, got)
    | none ↦ load_from t others lock_moves fuel (suc n) r.0 r.1
  ]

  load_from-access :
      (fuel n : ℕ) (s : Cell) (l : Loader)
      → load_from t others lock_moves (suc fuel) n s l
        ≡ then_load fuel n (load_access t (before t others lock_moves n s) l)
  unfolding load_from then_load
  load_from-access fuel n s l = refl

  module _ (locked : is_lock_free t ≡ false) (k : ℕ) (settled : Settled lock_moves k)
      (start : List ℕ) where
    -- What the next access finds, and how many words that is.
    abbrev Ready : ℕ → Cell → Type 0
    Ready n s = (others n s.words ≡ found_at others start n) × (length s.words ≡ length start)

    load_from-next :
        (fuel n : ℕ) (s : Cell) (l : Loader) {r : Cell × Loader}
        → load_step (before t others lock_moves n s) l ≡ r
        → load_from t others lock_moves (suc fuel) n s l ≡ then_load fuel n r
    load_from-next fuel n s l e =
        load_from-access fuel n s l
        ∙ ap (then_load fuel n) (load_access-locked t (before t others lock_moves n s) l locked ∙ e)

    words-next :
        (n : ℕ) (s : Cell) (l : Loader) {r : Cell × Loader}
        → load_step (before t others lock_moves n s) l ≡ r
        → r.0.words ≡ others n s.words
    words-next n s l e =
        ap (λ r. r.0.words) (sym e) ∙ load_step-words (before t others lock_moves n s) l

    done :
        (fuel n : ℕ) (s : Cell) (l : Loader) {c : Cell} {got : List ℕ}
        → Ready n s
        → load_step (before t others lock_moves n s) l ≡ (c, loaded got)
        → Ends start (load_from t others lock_moves (suc fuel) n s l)
    unfolding then_load
    done fuel n s l ready e = (n, _, _, load_from-next fuel n s l e, words-next n s l e ∙ ready.0)

    more :
        (fuel n : ℕ) (s : Cell) (l : Loader) {c : Cell} {l' : Loader}
        → Ready n s
        → load_step (before t others lock_moves n s) l ≡ (c, l')
        → result_of l' ≡ none
        → (Ready (suc n) c → Ends start (load_from t others lock_moves fuel (suc n) c l'))
        → Ends start (load_from t others lock_moves (suc fuel) n s l)
    unfolding then_load found_at
    more fuel n s l {c} {l'} ready e open_still continue =
        let words : c.words ≡ others n s.words = words-next n s l e in
        let size : length c.words ≡ length start = ap length words ∙ sizes n s.words ∙ ready.1 in
        let (at, cell, value, ended, same) =
          continue (ap (others (suc n)) (words ∙ ready.0), size) in
        (at, cell, value, load_from-next fuel n s l e ∙ rw (open_still, then_load) ended, same)

    -- Past the last word there is none.
    word-inside :
        (n w : ℕ) (s : Cell) (got : List ℕ)
        → Ready n s
        → length got ≤ length start
        → get_elem? (others n s.words) (length got) ≡ some w
        → length got < length start
    word-inside n w s got ready le e = elim (dec_lt (length got) (length start)) [
      | yes lt ↦ lt
      | no ge ↦
          let size = sizes n s.words in
          let full = ready.1 in
          let none_there = get_elem?_end (others n s.words) (length got) (omega arith) in absurd cc
    ]

    copying-Ends :
        (fuel n : ℕ) (s : Cell) (g : SeqLockWriteGuard) (got : List ℕ)
        → Ready n s
        → length got ≤ length start
        → length start < length got + fuel
        → Ends start (load_from t others lock_moves fuel n s (copying g got))
    copying-Ends zero n s g got ready le enough = absurd (omega arith)
    copying-Ends (suc fuel) n s g got ready le enough =
        elim (Option-cases (get_elem? (others n s.words) (length got))) [
          | inl over ↦
              done fuel n s (copying g got) ready
                (copying-over (before t others lock_moves n s) g got over)
          | inr (w, e) ↦
              let inside = word-inside n w s got ready le e in
              let longer = length-append got (w ∷ []) in
              more fuel n s (copying g got) ready
                (copying-word (before t others lock_moves n s) g got w e) refl
                (λ ready'.
                  copying-Ends fuel (suc n) _ g (got ++ (w ∷ [])) ready' (omega arith)
                    (omega arith))
        ]

    load_waits-got :
        (fuel n : ℕ) (s : Cell)
        → Ready n s
        → (lock_moves n s.lock).state == 1 ≡ true
        → length start < fuel
        → Ends start (load_from t others lock_moves (suc fuel) n s load_waits)
    load_waits-got fuel n s ready taken enough =
        more fuel n s load_waits ready (load_waits-taken (before t others lock_moves n s) taken)
          refl (λ ready'. copying-Ends fuel (suc n) _ _ [] ready' (omega arith) (omega arith))

    -- The lock is had as soon as it is settled, in two rounds at most.
    load_waits-Ends :
        (fuel n : ℕ) (s : Cell)
        → Ready n s
        → length start + 3 ≤ fuel
        → k + length start + 3 ≤ n + fuel
        → Ends start (load_from t others lock_moves fuel n s load_waits)
    load_waits-Ends zero n s ready some_fuel enough = absurd (omega arith)
    load_waits-Ends (suc zero) n s ready some_fuel enough = absurd (omega arith)
    load_waits-Ends (suc (suc fuel)) n s ready some_fuel enough =
        elim (Bool-cases ((lock_moves n s.lock).state == 1)) [
          | inl taken ↦ load_waits-got (suc fuel) n s ready taken (omega arith)
          | inr free ↦
              more (suc fuel) n s load_waits ready
                (load_waits-free (before t others lock_moves n s) free) refl
                (λ ready'. elim (dec_lt n k) [
                  | yes early ↦
                      load_waits-Ends (suc fuel) (suc n) _ ready' (omega arith) (omega arith)
                  | no late ↦
                      load_waits-got fuel (suc n) _ ready'
                        (ap (λ lock. lock.state == 1)
                          (settled (suc n) (omega arith) (record { state = 1 })))
                        (omega arith)
                ])
        ]

    reading-Ends :
        (fuel n : ℕ) (s : Cell) (stamp : ℕ) (got : List ℕ)
        → Ready n s
        → length got ≤ length start
        → k + 2 * length start + 4 ≤ length got + fuel
        → Ends start (load_from t others lock_moves fuel n s (reading stamp got))
    reading-Ends zero n s stamp got ready le enough = absurd (omega arith)
    reading-Ends (suc fuel) n s stamp got ready le enough =
        elim (Option-cases (get_elem? (others n s.words) (length got))) [
          | inl over ↦ elim (Bool-cases (validate_read (lock_moves n s.lock) stamp)) [
            | inl valid ↦
                done fuel n s (reading stamp got) ready
                  (reading-valid (before t others lock_moves n s) stamp got over valid)
            | inr stale ↦
                more fuel n s (reading stamp got) ready
                  (reading-stale (before t others lock_moves n s) stamp got over stale) refl
                  (λ ready'. load_waits-Ends fuel (suc n) _ ready' (omega arith) (omega arith))
          ]
          | inr (w, e) ↦
              let inside = word-inside n w s got ready le e in
              let longer = length-append got (w ∷ []) in
              more fuel n s (reading stamp got) ready
                (reading-some (before t others lock_moves n s) stamp w got e) refl
                (λ ready'.
                  reading-Ends fuel (suc n) _ stamp (got ++ (w ∷ [])) ready' (omega arith)
                    (omega arith))
        ]

    to_load-Ends :
        (fuel : ℕ) (s : Cell)
        → Ready 0 s
        → k + 2 * length start + 5 ≤ fuel
        → Ends start (load_from t others lock_moves fuel 0 s to_load)
    to_load-Ends zero s ready enough = absurd (omega arith)
    to_load-Ends (suc fuel) s ready enough =
        elim (Option-cases (optimistic_read (lock_moves 0 s.lock))) [
          | inl busy ↦
              more fuel 0 s to_load ready (to_load-busy (before t others lock_moves 0 s) busy) refl
                (λ ready'. load_waits-Ends fuel 1 _ ready' (omega arith) (omega arith))
          | inr (stamp, e) ↦
              more fuel 0 s to_load ready (to_load-started (before t others lock_moves 0 s) stamp e)
                refl (λ ready'. reading-Ends fuel 1 _ stamp [] ready' (omega arith) (omega arith))
        ]

  -- A load ends, and where the type has an instruction it returns what its one access finds.
  pub load_from-Ends :
      (k : ℕ)
      → Settled lock_moves k
      → (s : Cell)
      → (at : ℕ) × (cell : Cell) × (value : List ℕ) × (load_from t others lock_moves
            (k + 2 * length s.words + 8)
            0
            s
            to_load
          ≡ some (at, cell, value))
        × (cell.words ≡ found_at others s.words at)
        × ((is_lock_free t ≡ false) ⊎ ((at ≡ 0) × (value ≡ others 0 s.words)))
  unfolding found_at then_load
  load_from-Ends k settled s = elim (Bool-cases (is_lock_free t)) [
    | inl native ↦
        let plenty : k + 2 * length s.words + 8 ≡ suc (k + 2 * length s.words + 7) = omega arith in
        (
          0,
          before t others lock_moves 0 s,
          others 0 s.words,
          ap (λ fuel. load_from t others lock_moves fuel 0 s to_load) plenty
              ∙ load_from-access (k + 2 * length s.words + 7) 0 s to_load
              ∙ ap (then_load (k + 2 * length s.words + 7) 0)
                  (load_access-native t (before t others lock_moves 0 s) to_load native),
          refl,
          inr (refl, refl),
        )
    | inr locked ↦
        let (at, cell, value, ended, same) =
          to_load-Ends locked k settled s.words (k + 2 * length s.words + 8) s (refl, refl)
            (omega arith) in
        (at, cell, value, ended, same, inl locked)
  ]
