-- ===== src/Buf/Cursor.antt =====
-- `impl Buf for std::io::Cursor<T>` of bytes/src/buf/buf_impl.rs, with the two helpers of
-- bytes/src/lib.rs. A `u64` fits in a `usize` on the 64-bit target, so `try_from` succeeds.
use chiya.Prelude.{
  ℕ, ◌+◌, ◌-◌, ◌≤◌, ◌<◌, ◌≡◌, ap, sym, ◌∙◌, List, [], length, drop, min, ltb, if◌then◌else◌, arith,
  length-drop, drop-drop, append-nil,
}
use chiya.Prelude.Looping.{Run, done, panic}
use chiya.Buf.{Buf, Lawful, usize_max}

abbrev saturating_sub_usize_u64 : ℕ → ℕ → ℕ
saturating_sub_usize_u64 a b = a - b

abbrev min_u64_usize : ℕ → ℕ → ℕ
min_u64_usize a b = min a b

-- `std::io::Cursor` over bytes.
pub record Cursor : Type 0 where
  pub get_ref : List ℕ
  pub position : ℕ

-- A position past the end is allowed; the sum does not overflow, since it is at most `len` or
-- `position`.
unfoldable pub advance : Cursor → ℕ → Run Cursor
advance self cnt =
    let max_cnt = saturating_sub_usize_u64 (length self.get_ref) self.position in
    if ltb max_cnt cnt then panic else done (record self { position = self.position + cnt })

abbrev pub cursor_buf : Buf Cursor
cursor_buf = record {
  remaining = λ self. saturating_sub_usize_u64 (length self.get_ref) self.position;
  chunk = λ self. drop (min_u64_usize self.position (length self.get_ref)) self.get_ref;
  advance = advance;
}

abbrev pub contents_of : Cursor → List ℕ
contents_of self = drop (min self.position (length self.get_ref)) self.get_ref

pub cursor_advance :
    (s : Cursor) (n : ℕ)
    → length s.get_ref ≤ usize_max
    → n ≤ length (contents_of s)
    → (t : Cursor) × (advance s n ≡ done t)
      × (length t.get_ref ≤ usize_max)
      × (contents_of t ≡ drop n (contents_of s))
unfolding advance
cursor_advance s n v h =
    let len = length-drop (min s.position (length s.get_ref)) s.get_ref in
    let at : min (s.position + n) (length s.get_ref) ≡ min s.position (length s.get_ref) + n =
      omega arith in
    (
      record s { position = s.position + n },
      ground arith,
      v,
      ap (λ k. drop k s.get_ref) at
          ∙ sym (drop-drop (min s.position (length s.get_ref)) n s.get_ref),
    )

pub cursor_advance_panic :
    (s : Cursor) (n : ℕ)
    → length s.get_ref ≤ usize_max
    → length (contents_of s) < n
    → advance s n ≡ panic
unfolding advance
cursor_advance_panic s n v h =
    ground (arith, length-drop (min s.position (length s.get_ref)) s.get_ref)

-- A cursor is the lawful buffer of the bytes from its position on.
unfoldable pub cursor_Lawful : Lawful cursor_buf
cursor_Lawful = record {
  IsValid = λ s. length s.get_ref ≤ usize_max;
  contents = contents_of;
  length_le = λ s v. omega (arith, length-drop (min s.position (length s.get_ref)) s.get_ref);
  remaining-eq = λ s v. omega (arith, length-drop (min s.position (length s.get_ref)) s.get_ref);
  chunk_rest = λ s. [];
  chunk-append = λ s v. sym (append-nil (contents_of s));
  chunk-pos = λ s v h. h;
  advance-done = cursor_advance;
  advance-panic = cursor_advance_panic;
}
