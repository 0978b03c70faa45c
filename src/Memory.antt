-- ===== src/Memory.antt =====
-- The memory that bytes/src/bytes.rs and bytes/src/bytes_mut.rs work on through raw pointers:
-- allocated blocks of bytes, and the boxed reference counts.
pub mod Returns
pub mod Vec
pub mod Access
pub mod Windows
pub mod Reserve
use chiya.Prelude.{
  ℕ, suc, ◌+◌, ◌-◌, ◌*◌, ◌/◌, ◌%◌, ◌≤◌, ◌≡◌, Bool, true, false, List, ◌++◌, ◌==◌, length, take,
  drop, leb, ◌&&◌, if◌then◌else◌, Option, none, some,
}

-- A pointer to a byte: the allocation that it is derived from, and the offset in it.
pub record Ptr : Type 0 where
  pub block : ℕ
  pub offset : ℕ

abbrev pub add : Ptr → ℕ → Ptr
add p n = record { block = p.block; offset = p.offset + n }

abbrev pub eq_ptr : Ptr → Ptr → Bool
eq_ptr p q = p.block == q.block && p.offset == q.offset

-- The parts of a `Vec<u8>`.
pub record VecU8 : Type 0 where
  pub buf : ℕ
  pub len : ℕ
  pub cap : ℕ

-- What is boxed: `Shared` of bytes.rs, `Shared` of bytes_mut.rs, and the count of an `Owned`.
pub data Cell : Type 0 where
  shared : (buf cap ref_cnt : ℕ) → Cell
  shared_v : (vec : VecU8) (original_capacity_repr ref_count : ℕ) → Cell
  owned : (ref_cnt : ℕ) → Cell

-- A box at an address, which is even.
pub record Memory : Type 0 where
  pub next : ℕ
  pub block : ℕ → Option (List ℕ)
  pub cell : ℕ → Option Cell

-- A call that returns, panics, or does what is undefined: an access through a pointer to memory
-- that is freed or out of bounds, or the release of memory that is freed or of another size.
pub data Result {ℓ} (A : Type ℓ) : Type ℓ where
  ok : A → Memory → Result A
  panic : Result A
  undefined : Result A

abbrev pub Eff {ℓ} : Type ℓ → Type ℓ
Eff A = Memory → Result A

abbrev pub pure {ℓ} : {A : Type ℓ} → A → Eff A
pure = ok

abbrev pub and_then {ℓ μ} : {A : Type ℓ} {B : Type μ} → Result A → (A → Eff B) → Result B
and_then (ok a m) next = next a m
and_then panic next = panic
and_then undefined next = undefined

infixl 5 ◌>>◌ ◌>>=◌
abbrev pub ◌>>=◌ {ℓ μ} : {A : Type ℓ} {B : Type μ} → Eff A → (A → Eff B) → Eff B
first >>= next = λ m. and_then (first m) next

abbrev pub ◌>>◌ {ℓ} : {B : Type ℓ} → Eff (Unit {0}) → Eff B → Eff B
first >> next = first >>= λ _. next

-- `assert!` and `debug_assert!`
abbrev pub assert : Bool → Eff (Unit {0})
assert true m = ok tt m
assert false m = panic

-- What the caller of an unsafe function has to ensure.
abbrev pub require : Bool → Eff (Unit {0})
require true m = ok tt m
require false m = undefined

abbrev pub update {ℓ} : {A : Type ℓ} → (ℕ → Option A) → ℕ → Option A → ℕ → Option A
update f k v i = if i == k then v else f i

pub alloc : List ℕ → Eff ℕ
alloc bs m = ok m.next (record m { next = suc m.next; block = update m.block m.next (some bs) })

pub block_at : ℕ → Eff (List ℕ)
block_at b m = elim (m.block b) [ none ↦ undefined | some bs ↦ ok bs m ]

pub set_block : ℕ → Option (List ℕ) → Eff (Unit {0})
set_block b v m = ok tt (record m { block = update m.block b v })

-- `dealloc`, whose layout must be that of the allocation.
pub dealloc : ℕ → ℕ → Eff (Unit {0})
dealloc b cap = do bs ← block_at b; require (length bs == cap); set_block b none

-- `slice::from_raw_parts`
unfoldable pub read : Ptr → ℕ → Eff (List ℕ)
read p len = do
  bs ← block_at p.block
  require (leb (p.offset + len) (length bs))
  pure (take len (drop p.offset bs))

-- `copy_nonoverlapping`, `copy` and `write_bytes` to `p`.
unfoldable pub write : Ptr → List ℕ → Eff (Unit {0})
write p src = do
  bs ← block_at p.block
  require (leb (p.offset + length src) (length bs))
  set_block p.block (some (take p.offset bs ++ (src ++ drop (p.offset + length src) bs)))

-- `Box::into_raw(Box::new(..))`
unfoldable pub new_cell : Cell → Eff ℕ
new_cell c m =
    ok (m.next * 2) (record m { next = suc m.next; cell = update m.cell (m.next * 2) (some c) })

unfoldable pub cell_at : ℕ → Eff Cell
cell_at a m = elim (m.cell a) [ none ↦ undefined | some c ↦ ok c m ]

-- A write of the box, or its release.
unfoldable pub set_cell : ℕ → Option Cell → Eff (Unit {0})
set_cell a v m = ok tt (record m { cell = update m.cell a v })

-- Nothing is allocated from `next` on.
pub record IsFresh (m : Memory) : Type 0 where
  pub no_block : (k : ℕ) → m.next ≤ k → m.block k ≡ none
  pub no_cell : (k : ℕ) → m.next * 2 ≤ k → m.cell k ≡ none
