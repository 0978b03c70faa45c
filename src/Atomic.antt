-- ===== src/Atomic.antt =====
-- How an operation on an `AtomicCell` is chosen: `can_transmute`, `lock` and `atomic_is_lock_free` of
-- coroutine/src/sync/mod.rs and the macro `atomic!` of coroutine/src/sync/atomic_macro.rs.
pub mod Int
pub mod Fetch
pub mod Bounds
pub mod Undo
pub mod Truth
pub mod Alone
pub mod Overlap
pub mod Native
pub mod Words
pub mod Steps
pub mod Torn
pub mod Cell
mod Tests
use chiya.Prelude.{
  ℕ, ◌+◌, ◌%◌, ◌<◌, ◌≡◌, ◌⊎◌, ◌↔◌, Bool, true, false, ◌&&◌, ◌==◌, leb, if◌then◌else◌, arith, inl,
  inr, refl, Bool-cases,
}

-- What `size_of` and `align_of` give.
pub record Layout : Type 0 where
  pub size : ℕ
  pub align : ℕ

pub can_transmute : Layout → Layout → Bool
can_transmute a b = (a.size == b.size) && leb b.size a.size

-- The types that `atomic!` tries, with `target_has_atomic = "64"`.
pub data Atomic : Type 0 where
  atomic_unit : Atomic
  atomic_u8 : Atomic
  atomic_u16 : Atomic
  atomic_u32 : Atomic
  atomic_u64 : Atomic

abbrev pub layout_of : Atomic → Layout
layout_of atomic_unit = record { size = 0; align = 1 }
layout_of atomic_u8 = record { size = 1; align = 1 }
layout_of atomic_u16 = record { size = 2; align = 2 }
layout_of atomic_u32 = record { size = 4; align = 4 }
layout_of atomic_u64 = record { size = 8; align = 8 }

-- The branch of the loop that breaks: `$atomic_op` with a type, or `$fallback_op`.
pub data Choice : Type 0 where
  atomic_op : Atomic → Choice
  fallback_op : Choice

pub check : Layout → Atomic → Choice → Choice
check t atomic others = if can_transmute t (layout_of atomic) then atomic_op atomic else others

pub select : Layout → Choice
select t =
    check t atomic_unit
      (check t atomic_u8 (check t atomic_u16 (check t atomic_u32 (check t atomic_u64 fallback_op))))

abbrev pub is_atomic_op : Choice → Bool
is_atomic_op (atomic_op a) = true
is_atomic_op fallback_op = false

pub is_lock_free : Layout → Bool
is_lock_free t = is_atomic_op (select t)

-- The number of locks, and the one for an address.
abbrev pub lock_count : ℕ
lock_count = 67

unfoldable pub lock_index : ℕ → ℕ
lock_index addr = addr % lock_count

-- The sizes of the types that an instruction serves.
abbrev pub AtomicSize : ℕ → Type 0
AtomicSize n = (n ≡ 0) ⊎ ((n ≡ 1) ⊎ ((n ≡ 2) ⊎ ((n ≡ 4) ⊎ (n ≡ 8))))

-- A type is lock-free exactly if its size is 0, 1, 2, 4 or 8, whatever its alignment.
pub is_lock_free_iff : (t : Layout) → (is_lock_free t ≡ true) ↔ AtomicSize t.size
unfolding is_lock_free select check can_transmute
is_lock_free_iff t = ground arith

pub select-size : (t : Layout) (a : Atomic) → select t ≡ atomic_op a → (layout_of a).size ≡ t.size
unfolding select check can_transmute
select-size t a h = ground arith
