-- ===== src/BufMut.antt =====
-- The trait `BufMut` of bytes/src/buf/buf_mut.rs: its required methods, and the contract that its
-- comments give.
pub mod Put
pub mod Slice
pub mod Limit
pub mod Chain
pub mod Vec
pub mod RoundTrip
pub mod Uninit
mod Tests
use chiya.Prelude.{ℕ, ◌+◌, ◌-◌, ◌≤◌, ◌<◌, ◌≡◌, List, ◌++◌, length}
use chiya.Prelude.Looping.{Run, done}

-- `chunk_mut` gives the length of the slice that it returns, and the new state (a vector grows);
-- `fill` is a write at the front of that slice, as `copy_from_slice` or `write_bytes` on it.
pub record BufMut (S : Type 0) : Type 0 where
  pub remaining_mut : S → ℕ
  pub chunk_mut : S → ℕ × S
  pub fill : S → List ℕ → S
  pub advance_mut : S → ℕ → Run S

-- What an implementation owes: while room is left, `chunk_mut` gives a slice that is not empty;
-- what is written to the front of it and advanced over is added to the bytes written, and takes its
-- length from the room. Neither `chunk_mut` nor the write itself changes the room.
pub record LawfulMut {S : Type 0} (b : BufMut S) : Type 1 where
  pub IsValid : S → Type 0
  pub written : S → List ℕ
  pub chunk_mut-pos : (s : S) → IsValid s → 0 < b.remaining_mut s → 0 < (b.chunk_mut s).0
  pub chunk_mut-le : (s : S) → IsValid s → (b.chunk_mut s).0 ≤ b.remaining_mut s
  pub chunk_mut-remaining_mut :
      (s : S) → IsValid s → b.remaining_mut (b.chunk_mut s).1 ≡ b.remaining_mut s
  pub fill-remaining_mut :
      (s : S) (bs : List ℕ)
      → IsValid s
      → length bs ≤ (b.chunk_mut s).0
      → b.remaining_mut (b.fill (b.chunk_mut s).1 bs) ≡ b.remaining_mut s
  pub advance_mut-done :
      (s : S) (bs : List ℕ) (cnt : ℕ)
      → IsValid s
      → length bs ≡ cnt
      → cnt ≤ (b.chunk_mut s).0
      → (t : S) × (b.advance_mut (b.fill (b.chunk_mut s).1 bs) cnt ≡ done t)
        × IsValid t
        × (written t ≡ written s ++ bs)
        × (b.remaining_mut t ≡ b.remaining_mut s - cnt)
