-- ===== src/Atomic/Words.antt =====
-- The locked forms of `atomic_load` and `atomic_store` of coroutine/src/sync/mod.rs, for a type of
-- several words: one access of shared memory in a step, a word of the value at a time.
use chiya.Prelude.{
  ℕ, zero, suc, Option, none, some, List, [], ◌∷◌, ◌++◌, if◌then◌else◌, get_elem?, set, length,
}
use chiya.Sync.SeqLock.{
  SeqLock, SeqLockWriteGuard, optimistic_read, validate_read, try_write, drop, abort,
}

-- The words of the value, and the lock of its address.
pub record Cell : Type 0 where
  pub words : List ℕ
  pub lock : SeqLock

pub data Loader : Type 0 where
  to_load : Loader
  -- in `read_volatile`, with the stamp and the words that are read
  reading : ℕ → List ℕ → Loader
  -- in the loop of `write`
  load_waits : Loader
  -- in `ptr::read`
  copying : SeqLockWriteGuard → List ℕ → Loader
  loaded : List ℕ → Loader

abbrev pub after_read : Option ℕ → Loader
after_read none = load_waits
after_read (some stamp) = reading stamp []

abbrev pub after_try : Option SeqLockWriteGuard → Loader
after_try none = load_waits
after_try (some g) = copying g []

unfoldable pub load_step : Cell → Loader → Cell × Loader
load_step s to_load = (s, after_read (optimistic_read s.lock))
load_step s (reading stamp got) = elim (get_elem? s.words (length got)) [
  | some w ↦ (s, reading stamp (got ++ (w ∷ [])))
  | none ↦ (s, if validate_read s.lock stamp then loaded got else load_waits)
]
load_step s load_waits =
    let next = try_write s.lock in (record s { lock = next.1 }, after_try next.0)
load_step s (copying g got) = elim (get_elem? s.words (length got)) [
  | some w ↦ (s, copying g (got ++ (w ∷ [])))
  | none ↦ (record s { lock = abort g s.lock }, loaded got)
]
load_step s (loaded got) = (s, loaded got)

pub data Storer : Type 0 where
  to_store : List ℕ → Storer
  -- in `ptr::write`, with the number of words that are written
  storing : SeqLockWriteGuard → List ℕ → ℕ → Storer
  stored : Storer

abbrev pub store_try : List ℕ → Option SeqLockWriteGuard → Storer
store_try value none = to_store value
store_try value (some g) = storing g value 0

unfoldable pub store_step : Cell → Storer → Cell × Storer
store_step s (to_store value) =
    let next = try_write s.lock in (record s { lock = next.1 }, store_try value next.0)
store_step s (storing g value n) = elim (get_elem? value n) [
  | some w ↦ (record s { words = set s.words n w }, storing g value (suc n))
  | none ↦ (record s { lock = drop g s.lock }, stored)
]
store_step s stored = (s, stored)

-- A thread takes steps, and the other none.
unfoldable pub loads : ℕ → Cell → Loader → Cell × Loader
loads zero s l = (s, l)
loads (suc n) s l = let r = load_step s l in loads n r.0 r.1

unfoldable pub stores : ℕ → Cell → Storer → Cell × Storer
stores zero s t = (s, t)
stores (suc n) s t = let r = store_step s t in stores n r.0 r.1

-- A load and a store of one cell, in turns of some steps each.
pub record Pair : Type 0 where
  pub cell : Cell
  pub loader : Loader
  pub storer : Storer

pub data Turn : Type 0 where
  load_for : ℕ → Turn
  store_for : ℕ → Turn

unfoldable pub take_turn : Turn → Pair → Pair
take_turn (load_for n) p = let r = loads n p.cell p.loader in record p { cell = r.0; loader = r.1 }
take_turn (store_for n) p =
    let r = stores n p.cell p.storer in record p { cell = r.0; storer = r.1 }

unfoldable pub take_turns : List Turn → Pair → Pair
take_turns [] p = p
take_turns (t ∷ ts) p = take_turns ts (take_turn t p)
