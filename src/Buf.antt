-- ===== src/Buf.antt =====
-- The trait `Buf` of bytes/src/buf/buf_impl.rs: its required methods, and the contract that its
-- comments give.
pub mod Words
pub mod Read
pub mod Slice
pub mod Chain
pub mod Take
pub mod Cursor
pub mod Deque
pub mod Iter
pub mod Adapters
pub mod Vectored
mod Tests
use chiya.Prelude.{ℕ, ◌+◌, ◌-◌, ◌≤◌, ◌<◌, ◌^◌, ◌≡◌, List, [], ◌++◌, length, take, drop}
use chiya.Prelude.Looping.{Run, done, panic}

-- `usize` on a 64-bit target.
abbrev pub usize_max : ℕ
usize_max = 2 ^ 64 - 1

-- A value of `S` behind `&mut self`; `advance` returns the new one.
pub record Buf (S : Type 0) : Type 0 where
  pub remaining : S → ℕ
  pub chunk : S → List ℕ
  pub advance : S → ℕ → Run S

-- What an implementation owes: the bytes that a reader will see, of which `chunk` shows a part
-- that is not empty unless all are read, and `advance` drops as many as it is told, or panics.
pub record Lawful {S : Type 0} (b : Buf S) : Type 1 where
  pub IsValid : S → Type 0
  pub contents : S → List ℕ
  pub length_le : (s : S) → IsValid s → length (contents s) ≤ usize_max
  pub remaining-eq : (s : S) → IsValid s → b.remaining s ≡ length (contents s)
  pub chunk_rest : (s : S) → List ℕ
  pub chunk-append : (s : S) → IsValid s → contents s ≡ b.chunk s ++ chunk_rest s
  pub chunk-pos : (s : S) → IsValid s → 0 < length (contents s) → 0 < length (b.chunk s)
  pub advance-done :
      (s : S) (n : ℕ)
      → IsValid s
      → n ≤ length (contents s)
      → (t : S) × (b.advance s n ≡ done t) × IsValid t × (contents t ≡ drop n (contents s))
  pub advance-panic : (s : S) (n : ℕ) → IsValid s → length (contents s) < n → b.advance s n ≡ panic
