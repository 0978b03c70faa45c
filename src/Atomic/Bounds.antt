-- ===== src/Atomic/Bounds.antt =====
-- What the operations of an `AtomicCell` of numbers make of the patterns and of their values.
use chiya.Prelude.{
  Bool, if◌then◌else◌, ℕ, ◌<◌, ◌≡◌, ◌⊎◌, refl, true, false, leb, arith, inl, inr, Bool-cases,
}
use chiya.Prelude.Int.{◌+ℤ◌, ◌-ℤ◌, ◌≤ℤ◌}
use chiya.Prelude.Bits.{bit_and-le, bit_or-lt, bit_xor-lt}
use chiya.Atomic.Int.{
  Scalar, bool, u8, i8, u16, i16, u32, i32, u64, i64, usize, isize, u128, i128, Fetch, add, sub,
  and, nand, or, xor, fetch_max, fetch_min, bits, modulus, value_of, rank, max_of, min_of,
  next_value,
}

modulus-pos : (t : Scalar) → 0 < modulus t
modulus-pos bool = omega arith
modulus-pos u8 = omega arith
modulus-pos i8 = omega arith
modulus-pos u16 = omega arith
modulus-pos i16 = omega arith
modulus-pos u32 = omega arith
modulus-pos i32 = omega arith
modulus-pos u64 = omega arith
modulus-pos i64 = omega arith
modulus-pos usize = omega arith
modulus-pos isize = omega arith
modulus-pos u128 = omega arith
modulus-pos i128 = omega arith

-- Each operation makes a pattern of the type of two of them.
pub next_value-lt :
    (t : Scalar) (f : Fetch) (x val : ℕ)
    → x < modulus t
    → val < modulus t
    → next_value t f x val < modulus t
unfolding next_value max_of min_of
next_value-lt t add x val p q = grind (arith, modulus-pos t)
next_value-lt t sub x val p q = grind (arith, modulus-pos t)
next_value-lt t and x val p q = omega (arith, bit_and-le x val)
next_value-lt t nand x val p q = omega (arith, modulus-pos t)
next_value-lt t or x val p q = bit_or-lt (bits t) x val p q
next_value-lt t xor x val p q = bit_xor-lt (bits t) x val p q
next_value-lt t fetch_max x val p q = elim (Bool-cases (leb (rank t x) (rank t val))) [
  | inl le ↦ rw (le, max_of) q
  | inr gt ↦ rw (gt, max_of) p
]
next_value-lt t fetch_min x val p q = elim (Bool-cases (leb (rank t x) (rank t val))) [
  | inl le ↦ rw (le, min_of) p
  | inr gt ↦ rw (gt, min_of) q
]

-- The lesser of two patterns by rank has the lesser value.
rank-le :
    (t : Scalar) (x y : ℕ)
    → x < modulus t
    → y < modulus t
    → (leb (rank t x) (rank t y) ≡ true → value_of t x ≤ℤ value_of t y)
      × (leb (rank t x) (rank t y) ≡ false → value_of t y ≤ℤ value_of t x)
unfolding rank value_of
rank-le bool x y p q = ground arith
rank-le u8 x y p q = ground arith
rank-le i8 x y p q = ground arith
rank-le u16 x y p q = ground arith
rank-le i16 x y p q = ground arith
rank-le u32 x y p q = ground arith
rank-le i32 x y p q = ground arith
rank-le u64 x y p q = ground arith
rank-le i64 x y p q = ground arith
rank-le usize x y p q = ground arith
rank-le isize x y p q = ground arith
rank-le u128 x y p q = ground arith
rank-le i128 x y p q = ground arith

-- One of two patterns, with a value that is at least that of both; or at most.
abbrev pub Greater : Scalar → ℕ → ℕ → ℕ → Type 0
Greater t x y m =
    ((m ≡ x) ⊎ (m ≡ y)) × (value_of t x ≤ℤ value_of t m) × (value_of t y ≤ℤ value_of t m)

abbrev pub Lesser : Scalar → ℕ → ℕ → ℕ → Type 0
Lesser t x y m =
    ((m ≡ x) ⊎ (m ≡ y)) × (value_of t m ≤ℤ value_of t x) × (value_of t m ≤ℤ value_of t y)

value_refl : (t : Scalar) (x : ℕ) → value_of t x ≤ℤ value_of t x
value_refl t x = omega arith

-- For patterns of the type, `fetch_max` stores the one of the greater value, and `fetch_min` the one
-- of the lesser, signed or not.
pub next_value-extremes :
    (t : Scalar) (x val : ℕ)
    → x < modulus t
    → val < modulus t
    → Greater t x val (next_value t fetch_max x val) × Lesser t x val (next_value t fetch_min x val)
unfolding next_value max_of min_of
next_value-extremes t x val p q = elim (Bool-cases (leb (rank t x) (rank t val))) [
  | inl le ↦
      rw (le, max_of, min_of)
        (
          (inr refl, (rank-le t x val p q).0 le, value_refl t val),
          (inl refl, value_refl t x, (rank-le t x val p q).0 le),
        )
  | inr gt ↦
      rw (gt, max_of, min_of)
        (
          (inl refl, value_refl t x, (rank-le t x val p q).1 gt),
          (inr refl, (rank-le t x val p q).1 gt, value_refl t val),
        )
]

sum-exact :
    (t : Scalar) (x val y : ℕ)
    → x < modulus t
    → val < modulus t
    → y < modulus t
    → value_of t y ≡ value_of t x +ℤ value_of t val
    → next_value t add x val ≡ y
unfolding next_value value_of ◌+ℤ◌
sum-exact bool x val y p q r e = ground arith
sum-exact u8 x val y p q r e = ground arith
sum-exact i8 x val y p q r e = ground arith
sum-exact u16 x val y p q r e = ground arith
sum-exact i16 x val y p q r e = ground arith
sum-exact u32 x val y p q r e = ground arith
sum-exact i32 x val y p q r e = ground arith
sum-exact u64 x val y p q r e = ground arith
sum-exact i64 x val y p q r e = ground arith
sum-exact usize x val y p q r e = ground arith
sum-exact isize x val y p q r e = ground arith
sum-exact u128 x val y p q r e = ground arith
sum-exact i128 x val y p q r e = ground arith

difference-exact :
    (t : Scalar) (x val y : ℕ)
    → x < modulus t
    → val < modulus t
    → y < modulus t
    → value_of t y ≡ value_of t x -ℤ value_of t val
    → next_value t sub x val ≡ y
unfolding next_value value_of ◌-ℤ◌
difference-exact bool x val y p q r e = ground arith
difference-exact u8 x val y p q r e = ground arith
difference-exact i8 x val y p q r e = ground arith
difference-exact u16 x val y p q r e = ground arith
difference-exact i16 x val y p q r e = ground arith
difference-exact u32 x val y p q r e = ground arith
difference-exact i32 x val y p q r e = ground arith
difference-exact u64 x val y p q r e = ground arith
difference-exact i64 x val y p q r e = ground arith
difference-exact usize x val y p q r e = ground arith
difference-exact isize x val y p q r e = ground arith
difference-exact u128 x val y p q r e = ground arith
difference-exact i128 x val y p q r e = ground arith

-- Where the sum of the values of two patterns is the value of a pattern, or where their difference
-- is, `fetch_add`, or `fetch_sub`, stores that pattern.
pub next_value-exact :
    (t : Scalar) (minus : Bool) (x val y : ℕ)
    → x < modulus t
    → val < modulus t
    → y < modulus t
    → value_of t y
      ≡ (if minus then value_of t x -ℤ value_of t val else value_of t x +ℤ value_of t val)
    → next_value t (if minus then sub else add) x val ≡ y
next_value-exact t true x val y p q r e = difference-exact t x val y p q r e
next_value-exact t false x val y p q r e = sum-exact t x val y p q r e
