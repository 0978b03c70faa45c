-- ===== src/Buf/Words.antt =====
-- `to_be_bytes`, `from_be_bytes` and their kin, on numbers below 256 ^ size, and two's complement.
use chiya.Prelude.{
  ℕ, zero, suc, ◌+◌, ◌-◌, ◌*◌, ◌/◌, ◌%◌, ◌^◌, ◌<◌, ◌≡◌, refl, ◌∙◌, List, [], ◌∷◌, ◌++◌, length,
  length-append, replicate, arith, ltb, if◌then◌else◌,
}
use chiya.Prelude.Int.{ℤ, pos, negsuc}
use native.Mathlib.Nat.{pow-suc}
use mathlib.Core.List.{reverse, reverse-reverse, reverse-append}

pub data Endian : Type 0 where
  big little : Endian

-- The `size` low bytes, lowest first.
unfoldable pub to_le_bytes : ℕ → ℕ → List ℕ
to_le_bytes zero n = []
to_le_bytes (suc size) n = n % 256 ∷ to_le_bytes size (n / 256)

pub from_le_bytes : List ℕ → ℕ
from_le_bytes [] = 0
from_le_bytes (b ∷ bs) = b + 256 * from_le_bytes bs

unfoldable pub to_bytes : Endian → ℕ → ℕ → List ℕ
to_bytes little size n = to_le_bytes size n
to_bytes big size n = reverse (to_le_bytes size n)

pub from_bytes : Endian → List ℕ → ℕ
from_bytes little bs = from_le_bytes bs
from_bytes big bs = from_le_bytes (reverse bs)

pub from_le_bytes-to_le_bytes :
    (size n : ℕ) → n < 256 ^ size → from_le_bytes (to_le_bytes size n) ≡ n
unfolding to_le_bytes from_le_bytes
from_le_bytes-to_le_bytes zero n h = omega arith
from_le_bytes-to_le_bytes (suc size) n h =
    omega (arith, from_le_bytes-to_le_bytes size (n / 256) (omega (arith, pow-suc 256 size)))

pub from_bytes-to_bytes :
    (e : Endian) (size n : ℕ) → n < 256 ^ size → from_bytes e (to_bytes e size n) ≡ n
unfolding to_bytes from_bytes
from_bytes-to_bytes little size n h = from_le_bytes-to_le_bytes size n h
from_bytes-to_bytes big size n h = rw reverse-reverse (from_le_bytes-to_le_bytes size n h)

-- The `i64` (or other signed type of `bits` bits) of a bit pattern, and back.
unfoldable pub signed : ℕ → ℕ → ℤ
signed bits n = if ltb n (2 ^ (bits - 1)) then pos n else negsuc (2 ^ bits - n - 1)

unfoldable pub unsigned : ℕ → ℤ → ℕ
unsigned bits (pos n) = n % 2 ^ bits
unsigned bits (negsuc n) = (2 ^ bits - 1 - n) % 2 ^ bits

pub length-to_le_bytes : (size n : ℕ) → length (to_le_bytes size n) ≡ size
unfolding to_le_bytes
length-to_le_bytes zero n = refl
length-to_le_bytes (suc size) n = omega (arith, length-to_le_bytes size (n / 256))

pub length-reverse : (xs : List ℕ) → length (reverse xs) ≡ length xs
length-reverse [] = refl
length-reverse (x ∷ xs) =
    rw (reverse-append (x ∷ []) xs, length-append) (omega (arith, length-reverse xs))

pub length-to_bytes : (e : Endian) (size n : ℕ) → length (to_bytes e size n) ≡ size
unfolding to_bytes
length-to_bytes little size n = length-to_le_bytes size n
length-to_bytes big size n = rw length-reverse (length-to_le_bytes size n)

from_le_bytes-append_zero :
    (xs ys : List ℕ) → from_le_bytes ys ≡ 0 → from_le_bytes (xs ++ ys) ≡ from_le_bytes xs
unfolding from_le_bytes
from_le_bytes-append_zero [] ys h = h
from_le_bytes-append_zero (x ∷ xs) ys h = omega (arith, from_le_bytes-append_zero xs ys h)

from_le_bytes-zeros : (k : ℕ) → from_le_bytes (replicate k 0) ≡ 0
unfolding from_le_bytes
from_le_bytes-zeros zero = refl
from_le_bytes-zeros (suc k) = omega (arith, from_le_bytes-zeros k)

from_le_bytes-reverse_zeros : (k : ℕ) → from_le_bytes (reverse (replicate k 0)) ≡ 0
unfolding from_le_bytes
from_le_bytes-reverse_zeros zero = refl
from_le_bytes-reverse_zeros (suc k) = rw (reverse-append {A = ℕ} (0 ∷ []) (replicate k 0)) (
    from_le_bytes-append_zero (reverse (replicate k 0)) (0 ∷ []) refl
    ∙ from_le_bytes-reverse_zeros k)

-- Zeroes at the high end do not change a number.
pub from_bytes-padded_big :
    (k : ℕ) (bs : List ℕ) → from_bytes big (replicate k 0 ++ bs) ≡ from_bytes big bs
unfolding from_bytes
from_bytes-padded_big k bs = rw (reverse-append (replicate k 0) bs) (
    from_le_bytes-append_zero (reverse bs) (reverse (replicate k 0))
      (from_le_bytes-reverse_zeros k))

pub from_bytes-padded_little :
    (k : ℕ) (bs : List ℕ) → from_bytes little (bs ++ replicate k 0) ≡ from_bytes little bs
unfolding from_bytes
from_bytes-padded_little k bs = from_le_bytes-append_zero bs (replicate k 0) (from_le_bytes-zeros k)
