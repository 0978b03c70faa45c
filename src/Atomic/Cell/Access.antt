-- ===== src/Atomic/Cell/Access.antt =====
-- What the accesses of `AtomicCell::load` (coroutine/src/sync/atomic_cell.rs) come to.
use chiya.Prelude.{
  ℕ, ◌≡◌, refl, ap, true, false, none, some, inl, inr, Option-cases, List, [], ◌∷◌, ◌++◌, length,
  ◌==◌, get_elem?,
}
use chiya.Sync.SeqLock.{
  SeqLockWriteGuard, optimistic_read, validate_read, abort, try_write-none, try_write-some,
}
use chiya.Atomic.{Layout, is_lock_free}
use chiya.Atomic.Words.{
  after_try, Cell, Loader, to_load, reading, load_waits, copying, loaded, load_step,
}
use chiya.Atomic.Cell.{load_access}

pub load_step-words : (s : Cell) (l : Loader) → (load_step s l).0.words ≡ s.words
unfolding load_step
load_step-words s to_load = refl
load_step-words s (reading stamp got) = elim (Option-cases (get_elem? s.words (length got))) [
  | inl over ↦ rw (over, load_step) refl
  | inr (w, e) ↦ rw (e, load_step) refl
]
load_step-words s load_waits = refl
load_step-words s (copying g got) = elim (Option-cases (get_elem? s.words (length got))) [
  | inl over ↦ rw (over, load_step) refl
  | inr (w, e) ↦ rw (e, load_step) refl
]
load_step-words s (loaded got) = refl

-- What the steps of a load come to.
pub to_load-busy :
    (s : Cell) → optimistic_read s.lock ≡ none → load_step s to_load ≡ (s, load_waits)
unfolding load_step
to_load-busy s e = rw (e, load_step) refl

pub to_load-started :
    (s : Cell) (stamp : ℕ)
    → optimistic_read s.lock ≡ some stamp
    → load_step s to_load ≡ (s, reading stamp [])
unfolding load_step
to_load-started s stamp e = rw (e, load_step) refl

pub reading-valid :
    (s : Cell) (stamp : ℕ) (got : List ℕ)
    → get_elem? s.words (length got) ≡ none
    → validate_read s.lock stamp ≡ true
    → load_step s (reading stamp got) ≡ (s, loaded got)
unfolding load_step
reading-valid s stamp got over valid = rw (over, valid, load_step) refl

pub reading-stale :
    (s : Cell) (stamp : ℕ) (got : List ℕ)
    → get_elem? s.words (length got) ≡ none
    → validate_read s.lock stamp ≡ false
    → load_step s (reading stamp got) ≡ (s, load_waits)
unfolding load_step
reading-stale s stamp got over stale = rw (over, stale, load_step) refl

pub load_waits-taken :
    (s : Cell)
    → s.lock.state == 1 ≡ true
    → load_step s load_waits
      ≡ (record s { lock = record { state = 1 } }, copying (record { stamp = 1 }) [])
unfolding load_step
load_waits-taken s taken =
    ap (λ next. (record s { lock = next.1 }, after_try next.0)) (try_write-some s.lock taken)

pub load_waits-free :
    (s : Cell)
    → s.lock.state == 1 ≡ false
    → load_step s load_waits ≡ (record s { lock = record { state = 1 } }, load_waits)
unfolding load_step
load_waits-free s free =
    ap (λ next. (record s { lock = next.1 }, after_try next.0)) (try_write-none s.lock free)

pub copying-word :
    (s : Cell) (g : SeqLockWriteGuard) (got : List ℕ) (w : ℕ)
    → get_elem? s.words (length got) ≡ some w
    → load_step s (copying g got) ≡ (s, copying g (got ++ (w ∷ [])))
unfolding load_step
copying-word s g got w e = rw (e, load_step) refl

pub copying-over :
    (s : Cell) (g : SeqLockWriteGuard) (got : List ℕ)
    → get_elem? s.words (length got) ≡ none
    → load_step s (copying g got) ≡ (record s { lock = abort g s.lock }, loaded got)
unfolding load_step
copying-over s g got over = rw (over, load_step) refl

pub load_access-locked :
    (t : Layout) (s : Cell) (l : Loader)
    → is_lock_free t ≡ false
    → load_access t s l ≡ load_step s l
unfolding load_access
load_access-locked t s l locked = rw locked refl

pub load_access-native :
    (t : Layout) (s : Cell) (l : Loader)
    → is_lock_free t ≡ true
    → load_access t s l ≡ (s, loaded s.words)
unfolding load_access
load_access-native t s l native = rw native refl
