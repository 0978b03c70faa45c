-- ===== src/Atomic/Fetch.antt =====
-- `fetch_add` to `fetch_min` of coroutine/src/sync/atomic_macro.rs and those of
-- `AtomicCell<bool>` of coroutine/src/sync/atomic_cell.rs, one access of shared memory in a step.
use chiya.Prelude.{
  ℕ, zero, suc, Bool, true, false, Option, none, some, List, [], ◌∷◌, ◌==◌, if◌then◌else◌,
  get_elem?, set,
}
use chiya.Sync.SeqLock.{SeqLock, SeqLockWriteGuard, try_write, drop}
use chiya.Atomic.{is_lock_free, lock_index}
use chiya.Atomic.Int.{Scalar, bool, u128, i128, Fetch, layout, next_value, reads_again}

-- The arm of `impl_arithmetic!` that has the lock alone.
abbrev pub is_fallback_arm : Scalar → Bool
is_fallback_arm u128 = true
is_fallback_arm i128 = true
is_fallback_arm other = false

-- Whether the operation is an instruction.
unfoldable pub is_native : Scalar → Bool
is_native t = elim (is_fallback_arm t) [ true ↦ false | false ↦ is_lock_free (layout t) ]

-- A call on the cell at an address.
pub record Call : Type 0 where
  pub scalar : Scalar
  pub fetch : Fetch
  pub addr : ℕ
  pub val : ℕ

-- The cells by address, and `LOCKS`.
pub record Shared : Type 0 where
  pub cells : ℕ → ℕ
  pub locks : ℕ → SeqLock

abbrev pub update {ℓ} : {A : Type ℓ} → (ℕ → A) → ℕ → A → ℕ → A
update f i a j = if i == j then a else f j

-- Where a thread is in a call.
pub data Thread : Type 0 where
  ready : Call → Thread
  -- in the loop of `write`
  spinning : Call → Thread
  -- before `let old = *value`
  locked : Call → SeqLockWriteGuard → Thread
  -- before `*value` is read for the new value
  has_old : Call → SeqLockWriteGuard → ℕ → Thread
  -- before the new value is written
  has_both : Call → SeqLockWriteGuard → ℕ → ℕ → Thread
  -- before the guard is dropped
  written : Call → SeqLockWriteGuard → ℕ → Thread
  returned : ℕ → Thread

abbrev pub granted : Call → Option SeqLockWriteGuard → Thread
granted c none = spinning c
granted c (some g) = locked c g

unfoldable pub advance : Shared → Thread → Shared × Thread
advance s (ready c) = elim (is_native c.scalar) [
  | true ↦ (
    record s { cells = update s.cells c.addr (next_value c.scalar c.fetch (s.cells c.addr) c.val) },
    returned (s.cells c.addr),
  )
  | false ↦ (s, spinning c)
]
advance s (spinning c) =
    let i = lock_index c.addr in
    let next = try_write (s.locks i) in
    (record s { locks = update s.locks i next.1 }, granted c next.0)
advance s (locked c g) = (s, has_old c g (s.cells c.addr))
advance s (has_old c g old) =
    (s, has_both c g old (if reads_again c.fetch then s.cells c.addr else old))
advance s (has_both c g old x) = (
  record s { cells = update s.cells c.addr (next_value c.scalar c.fetch x c.val) },
  written c g old,
)
advance s (written c g old) =
    let i = lock_index c.addr in
    (record s { locks = update s.locks i (drop g (s.locks i)) }, returned old)
advance s (returned old) = (s, returned old)

pub record System : Type 0 where
  pub shared : Shared
  pub threads : List Thread

abbrev pub moved : System → ℕ → Shared × Thread → System
moved s n r = record { shared = r.0; threads = set s.threads n r.1 }

-- The thread at a position takes a step.
unfoldable pub step : System → ℕ → System
step s n = elim (get_elem? s.threads n) [ none ↦ s | some t ↦ moved s n (advance s.shared t) ]

unfoldable pub run : List ℕ → System → System
run [] s = s
run (n ∷ ns) s = run ns (step s n)

-- A thread takes steps, and no other does.
unfoldable pub alone : ℕ → Shared → Thread → Shared × Thread
alone zero s t = (s, t)
alone (suc n) s t = let r = advance s t in alone n r.0 r.1

-- A method of `AtomicCell<bool>`: `fetch_and`, `fetch_nand`, `fetch_or` or `fetch_xor`.
abbrev pub bit_of : Bool → ℕ
bit_of false = 0
bit_of true = 1

unfoldable pub bool_fetch : Fetch → ℕ → Bool → Call
bool_fetch f addr value = record { scalar = bool; fetch = f; addr = addr; val = bit_of value }
