-- ===== src/Buf/Slice.antt =====
-- `impl Buf for &[u8]` of bytes/src/buf/buf_impl.rs.
use chiya.Prelude.{
  ℕ, ◌≤◌, ◌<◌, ◌≡◌, refl, sym, List, [], length, take, drop, ltb, if◌then◌else◌, arith, length-drop,
  append-nil, dec_lt,
}
use chiya.Prelude.Looping.{Run, done, panic, ◌>>=◌}
use chiya.Buf.{Buf, Lawful, usize_max}
use chiya.Buf.Read.{copy_to_slice}
use chiya.Buf.Read.Copy.{copy_to_slice-Reads, copy_to_slice-panic}

unfoldable pub advance : List ℕ → ℕ → Run (List ℕ)
advance self cnt = if ltb (length self) cnt then panic else done (drop cnt self)

abbrev pub slice_buf : Buf (List ℕ)
slice_buf = record { remaining = length; chunk = λ self. self; advance = advance }

-- The override of `copy_to_slice`: one copy in place of the loop.
pub copy_slice : List ℕ → ℕ → Run (List ℕ × List ℕ)
unfolding advance
copy_slice self n =
    if ltb (length self) n then panic else (advance self n >>= λ rest. done (take n self, rest))

pub slice_advance :
    (s : List ℕ) (n : ℕ)
    → length s ≤ usize_max
    → n ≤ length s
    → (t : List ℕ) × (advance s n ≡ done t) × (length t ≤ usize_max) × (t ≡ drop n s)
unfolding advance
slice_advance s n v h = (drop n s, ground arith, omega (arith, length-drop n s), refl)

pub slice_advance_panic :
    (s : List ℕ) (n : ℕ) → length s ≤ usize_max → length s < n → advance s n ≡ panic
unfolding advance
slice_advance_panic s n v h = ground arith

-- A slice is a lawful buffer of its own bytes.
abbrev pub slice_Lawful : Lawful slice_buf
slice_Lawful = record {
  IsValid = λ s. length s ≤ usize_max;
  contents = λ s. s;
  length_le = λ s v. v;
  remaining-eq = λ s v. refl;
  chunk_rest = λ s. [];
  chunk-append = λ s v. sym (append-nil s);
  chunk-pos = λ s v h. h;
  advance-done = slice_advance;
  advance-panic = slice_advance_panic;
}

-- On a slice no longer than a `usize`, the override copies what the loop of the trait copies, and
-- panics where it does.
pub copy_slice-copy_to_slice :
    (s : List ℕ) (n : ℕ) → length s ≤ usize_max → copy_slice s n ≡ copy_to_slice slice_buf s n
unfolding copy_slice
copy_slice-copy_to_slice s n v = elim (dec_lt (length s) n) [
  | yes short ↦ rw (copy_to_slice-panic slice_buf slice_Lawful s n v short) (ground arith)
  | no enough ↦
      let (t, e, _, c) = copy_to_slice-Reads slice_buf slice_Lawful s n v (omega arith) in
      rw e (ground arith)
]
