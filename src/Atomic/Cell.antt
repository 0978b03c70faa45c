-- ===== src/Atomic/Cell.antt =====
-- `AtomicCell` of coroutine/src/sync/atomic_cell.rs, whose `swap` and `compare_exchange` call
-- `atomic_swap` and `atomic_compare_exchange_weak`, which no file of the repository defines: these
-- are parameters, with what their names promise. The load before them is the code's `atomic_load`.
pub mod Access
pub mod Load
pub mod Update
use chiya.Prelude.{
  ℕ, zero, suc, ◌≡◌, ◌⊎◌, Bool, true, false, Option, none, some, List, if◌then◌else◌,
}
use chiya.Sync.SeqLock.{SeqLock}
use chiya.Atomic.{Layout, is_lock_free}
use chiya.Atomic.Words.{Cell, Loader, to_load, reading, load_waits, copying, loaded, load_step}

pub data Result {ℓ} (A : Type ℓ) : Type ℓ where
  ok : A → Result A
  err : A → Result A

-- `store` with `swap`: what is dropped, and the new content.
unfoldable pub store {ℓ} : {A : Type ℓ} → (A → A → A × A) → Bool → A → A → Option A × A
store atomic_swap true value content = let r = atomic_swap content value in (some r.0, r.1)
store atomic_swap false value content = (none, value)

unfoldable pub take {ℓ} : {A : Type ℓ} → (A → A → A × A) → A → A → A × A
take atomic_swap default content = atomic_swap content default

-- The exchange with a number finds a content, and gives its result and the new content. It exchanges
-- where the content is `current`, or fails, and may fail where it is.
abbrev pub Exchange {ℓ} : Type ℓ → Type ℓ
Exchange A = ℕ → A → A → A → Result A × A

abbrev pub IsWeak {ℓ} : {A : Type ℓ} → Exchange A → Type ℓ
IsWeak {A = A} exchange =
    (n : ℕ) (content current next : A)
    → ((content ≡ current) × (exchange n content current next ≡ (ok content, next)))
      ⊎ (exchange n content current next ≡ (err content, content))

-- The loop of `fetch_update`, after the access with the number `n`. Its argument `f` may change from
-- call to call, and `others n` is what the other threads make of the content before the access `n`.
module _ {ℓ} {A : Type ℓ} (exchange : Exchange A) (others : ℕ → A → A) (f : ℕ → A → Option A) where
  unfoldable pub update_loop : ℕ → ℕ → A → A → Option (Result A × A)
  update_loop zero n content previous = none
  update_loop (suc fuel) n content previous = elim (f n previous) [
    | none ↦ some (err previous, content)
    | some next ↦
        let r = exchange (suc n) (others (suc n) content) previous next in
        elim r.0 [ ok x ↦ some (ok x, r.1) | err found ↦ update_loop fuel (suc n) r.1 found ]
  ]

-- The content that the access with a number finds, as long as no exchange succeeds.
pub found_at {ℓ} : {A : Type ℓ} → (ℕ → A → A) → A → ℕ → A
found_at others content zero = others 0 content
found_at others content (suc n) = others (suc n) (found_at others content n)

-- The words of a value that is loaded.
abbrev pub result_of : Loader → Option (List ℕ)
result_of to_load = none
result_of (reading stamp got) = none
result_of load_waits = none
result_of (copying g got) = none
result_of (loaded got) = some got

-- An access of `atomic_load`: the instruction, where the type has one.
pub load_access : Layout → Cell → Loader → Cell × Loader
load_access t s l = if is_lock_free t then (s, loaded s.words) else load_step s l

-- The content is the words of the cell; the other threads move the lock too.
module _ (t : Layout) (others : ℕ → List ℕ → List ℕ) (lock_moves : ℕ → SeqLock → SeqLock) where
  abbrev pub before : ℕ → Cell → Cell
  before n s = record { words = others n s.words; lock = lock_moves n s.lock }

  -- `load`, from the access with a number on: the number of the last one, the cell and the value.
  pub load_from : ℕ → ℕ → Cell → Loader → Option (ℕ × Cell × List ℕ)
  load_from zero n s l = none
  load_from (suc fuel) n s l =
      let r = load_access t (before n s) l in
      elim (result_of r.1) [ some got ↦ some (n, r.0, got) | none ↦ load_from fuel (suc n) r.0 r.1 ]

  pub fetch_update :
      Exchange (List ℕ)
      → (ℕ → List ℕ → Option (List ℕ))
      → ℕ
      → Cell
      → Option (Result (List ℕ) × List ℕ)
  fetch_update exchange f fuel s = elim (load_from fuel 0 s to_load) [
    | none ↦ none
    | some q ↦ update_loop exchange others f fuel q.0 q.1.words q.2
  ]
