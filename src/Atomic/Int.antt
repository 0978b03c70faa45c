-- ===== src/Atomic/Int.antt =====
-- The types that `impl_arithmetic!` of coroutine/src/sync/atomic_macro.rs is used with, `bool` of
-- coroutine/src/sync/atomic_cell.rs, and what an operation makes of the old value. A value is its bit
-- pattern: a number below 2 to the number of bits.
use Prim.Native.Nat.{bit_and, bit_or, bit_xor}
use chiya.Prelude.{ℕ, ◌+◌, ◌-◌, ◌/◌, ◌%◌, ◌^◌, Bool, true, false, leb, if◌then◌else◌}
use chiya.Prelude.Int.{ℤ, pos, negsuc}
use chiya.Prelude.{ltb}
use chiya.Atomic.{Layout}

-- `bool` has the operations on bits alone.
pub data Scalar : Type 0 where
  bool : Scalar
  u8 : Scalar
  i8 : Scalar
  u16 : Scalar
  i16 : Scalar
  u32 : Scalar
  i32 : Scalar
  u64 : Scalar
  i64 : Scalar
  usize : Scalar
  isize : Scalar
  u128 : Scalar
  i128 : Scalar

abbrev pub bits : Scalar → ℕ
bits bool = 1
bits u8 = 8
bits i8 = 8
bits u16 = 16
bits i16 = 16
bits u32 = 32
bits i32 = 32
bits u64 = 64
bits i64 = 64
bits usize = 64
bits isize = 64
bits u128 = 128
bits i128 = 128

abbrev pub modulus : Scalar → ℕ
modulus t = 2 ^ bits t

abbrev pub is_signed : Scalar → Bool
is_signed i8 = true
is_signed i16 = true
is_signed i32 = true
is_signed i64 = true
is_signed isize = true
is_signed i128 = true
is_signed other = false

-- A `bool` takes a byte.
abbrev pub bytes : Scalar → ℕ
bytes bool = 1
bytes other = bits other / 8

abbrev pub layout : Scalar → Layout
layout t = record { size = bytes t; align = bytes t }

pub data Fetch : Type 0 where
  add : Fetch
  sub : Fetch
  and : Fetch
  nand : Fetch
  or : Fetch
  xor : Fetch
  fetch_max : Fetch
  fetch_min : Fetch

-- The number that a pattern stands for.
unfoldable pub value_of : Scalar → ℕ → ℤ
value_of t x =
    if is_signed t
    then (if ltb x (2 ^ (bits t - 1)) then pos x else negsuc (modulus t - x - 1))
    else pos x

-- A number in the order of the patterns' values.
unfoldable pub rank : Scalar → ℕ → ℕ
rank t x = if is_signed t then (x + 2 ^ (bits t - 1)) % modulus t else x

-- `Ord` of `$t`, with `cmp::max` and `cmp::min`.
unfoldable pub max_of : Scalar → ℕ → ℕ → ℕ
max_of t old val = if leb (rank t old) (rank t val) then val else old

unfoldable pub min_of : Scalar → ℕ → ℕ → ℕ
min_of t old val = if leb (rank t old) (rank t val) then old else val

-- The new value, from the old one and the argument.
unfoldable pub next_value : Scalar → Fetch → ℕ → ℕ → ℕ
next_value t add x val = (x + val) % modulus t
next_value t sub x val = (x + modulus t - val) % modulus t
next_value t and x val = bit_and x val
next_value t nand x val = modulus t - 1 - bit_and x val
next_value t or x val = bit_or x val
next_value t xor x val = bit_xor x val
next_value t fetch_max x val = max_of t x val
next_value t fetch_min x val = min_of t x val

-- Whether the operation reads the value again, where it has it in `old` already.
abbrev pub reads_again : Fetch → Bool
reads_again nand = false
reads_again fetch_max = false
reads_again fetch_min = false
reads_again other = true
