-- ===== src/Prelude/Bits.antt =====
-- The operations on bits, on numbers.
use Prim.Native.Nat.{
  ℕ, zero, suc, ◌*◌, ◌/◌, ◌%◌, ◌^◌, ◌≤◌, ◌<◌, min, max, bit_and, bit_or, bit_xor, digits, differ,
  bit_and-bitwise, bit_or-bitwise, bit_xor-bitwise,
}
use native.Mathlib.Nat.{pow-suc}
use mathlib.Core.Path.{◌≡◌}
use native.Mathlib.Omega.{arith}

-- However many digits are read, their minima make no more than the second number.
shared-le : (count left right : ℕ) → digits (λ _. zero) min count left right ≤ right
shared-le zero left right = omega arith
shared-le (suc count) zero right = omega arith
shared-le (suc count) (suc left) right =
    let higher = shared-le count (suc left / 2) (right / 2) in omega arith

pub bit_and-le : (a b : ℕ) → bit_and a b ≤ b
bit_and-le a b = rw (bit_and-bitwise a b) (shared-le a a b)

pub bit_and-zero : (a : ℕ) → bit_and a 0 ≡ 0
bit_and-zero a = omega (arith, bit_and-le a 0)

-- Digits are combined to digits: numbers below a power of two stay below it.
digits-lt :
    (over : ℕ → ℕ) (combine : ℕ → ℕ → ℕ)
    → ((b : ℕ) → over b ≤ b)
    → ((a b : ℕ) → a < 2 → b < 2 → combine a b < 2)
    → (count left right k : ℕ) → left < 2 ^ k
    → right < 2 ^ k
    → digits over combine count left right < 2 ^ k
digits-lt over combine low small zero left right k l r = omega (arith, low right)
digits-lt over combine low small (suc count) zero right k l r = omega (arith, low right)
digits-lt over combine low small (suc count) (suc left) right zero l r = absurd (omega arith)
digits-lt over combine low small (suc count) (suc left) right (suc k) l r =
    let power : 2 ^ suc k ≡ 2 ^ k * 2 = pow-suc 2 k in
    let higher =
      digits-lt over combine low small count (suc left / 2) (right / 2) k (omega arith)
        (omega arith) in
    let digit = small (suc left % 2) (right % 2) (omega arith) (omega arith) in omega arith

differ-lt : (a b : ℕ) → a < 2 → b < 2 → differ a b < 2
differ-lt zero b p q = q
differ-lt (suc a) zero p q = p
differ-lt (suc a) (suc b) p q = differ-lt a b (omega arith) (omega arith)

pub bit_or-lt : (k a b : ℕ) → a < 2 ^ k → b < 2 ^ k → bit_or a b < 2 ^ k
bit_or-lt k a b p q =
    rw (bit_or-bitwise a b)
      (digits-lt (λ c. c) max (λ c. omega arith) (λ x y u v. omega arith) a a b k p q)

pub bit_xor-lt : (k a b : ℕ) → a < 2 ^ k → b < 2 ^ k → bit_xor a b < 2 ^ k
bit_xor-lt k a b p q =
    rw (bit_xor-bitwise a b) (digits-lt (λ c. c) differ (λ c. omega arith) differ-lt a a b k p q)
