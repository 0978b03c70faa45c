-- ===== src/BufMut/Slice.antt =====
-- `impl BufMut for &mut [u8]` and `for &mut [MaybeUninit<u8>]` of bytes/src/buf/buf_mut.rs.
use chiya.Prelude.{
  ℕ, zero, suc, ◌-◌, ◌≤◌, ◌≡◌, refl, ap, sym, ◌∙◌, false, true, List, [], ◌∷◌, ◌++◌, length, take,
  drop, replicate, ltb, if◌then◌else◌, arith, length-drop, length-append, append-nil,
  take-append_le, drop-append_ge, take_all, dec_lt,
}
use chiya.Prelude.Looping.{Run, done, panic}
use chiya.BufMut.{BufMut, LawfulMut}
use chiya.BufMut.Put
use chiya.BufMut.Put.Writes.{put_slice-panic, put_slice-nil, put_slice_one}
use chiya.Buf.{usize_max}

-- The slice, with the memory before it that the reference has passed.
pub record SliceMut : Type 0 where
  pub passed : List ℕ
  pub slice : List ℕ

-- A write at the front of the slice.
abbrev pub fill : SliceMut → List ℕ → SliceMut
fill self bs = record { passed = self.passed; slice = bs ++ drop (length bs) self.slice }

unfoldable pub advance_mut : SliceMut → ℕ → Run SliceMut
advance_mut self cnt =
    if ltb (length self.slice) cnt
    then panic
    else done (record { passed = self.passed ++ take cnt self.slice; slice = drop cnt self.slice })

abbrev pub slice_mut : BufMut SliceMut
slice_mut = record {
  remaining_mut = λ self. length self.slice;
  chunk_mut = λ self. (length self.slice, self);
  fill = fill;
  advance_mut = advance_mut;
}

-- The override of `put_slice`.
pub put_slice : SliceMut → List ℕ → Run SliceMut
put_slice self src =
    if ltb (length self.slice) (length src) then panic else advance_mut (fill self src) (length src)

-- The override of `put_bytes`.
pub put_bytes : SliceMut → ℕ → ℕ → Run SliceMut
put_bytes self val cnt =
    if ltb (length self.slice) cnt then panic else advance_mut (fill self (replicate cnt val)) cnt

pub length-fill :
    (s : SliceMut) (bs : List ℕ)
    → length bs ≤ length s.slice
    → length (fill s bs).slice ≡ length s.slice
length-fill s bs h =
    length-append bs (drop (length bs) s.slice) ∙ omega (arith, length-drop (length bs) s.slice)

-- What `fill` and `advance_mut` do together.
fill-advance_mut :
    (s : SliceMut) (bs : List ℕ) (cnt : ℕ)
    → length bs ≡ cnt
    → cnt ≤ length s.slice
    → advance_mut (fill s bs) cnt
      ≡ done (record { passed = s.passed ++ bs; slice = drop cnt s.slice })
unfolding advance_mut
fill-advance_mut s bs cnt e h =
    let len = length-fill s bs (omega arith) in
    let fits : ltb (length (fill s bs).slice) cnt ≡ false = ground arith in
    let rest = drop (length bs) s.slice in
    let fst : take cnt (bs ++ rest) ≡ bs =
      take-append_le cnt bs rest (omega arith) ∙ take_all cnt bs (omega arith) in
    let snd : drop cnt (bs ++ rest) ≡ drop cnt s.slice =
      drop-append_ge cnt bs rest (omega arith)
      ∙ front (cnt - length bs) rest (omega arith)
      ∙ ap (λ k. drop k s.slice) e in
    rw fits (ap (λ k. done k) (both fst snd))
  where
    front : (k : ℕ) (xs : List ℕ) → k ≡ 0 → drop k xs ≡ xs
    front zero xs h = refl
    front (suc k) xs h = absurd (omega arith)

    both :
        {cs bs xs ys : List ℕ}
        → cs ≡ bs
        → xs ≡ ys
        → ◌≡◌ {A = SliceMut}
            (record { passed = s.passed ++ cs; slice = xs })
            (record { passed = s.passed ++ bs; slice = ys })
    both e f = rw (e, f)

pub slice_mut-done :
    (s : SliceMut) (bs : List ℕ) (cnt : ℕ)
    → length bs ≡ cnt
    → cnt ≤ length s.slice
    → (t : SliceMut) × (advance_mut (fill s bs) cnt ≡ done t)
      × (length t.slice ≤ length s.slice)
      × (t.passed ≡ s.passed ++ bs)
      × (length t.slice ≡ length s.slice - cnt)
slice_mut-done s bs cnt e h = (
  record { passed = s.passed ++ bs; slice = drop cnt s.slice },
  fill-advance_mut s bs cnt e h,
  omega (arith, length-drop cnt s.slice),
  refl,
  length-drop cnt s.slice,
)

-- A slice is a lawful buffer with room for its length.
abbrev pub slice_LawfulMut : LawfulMut slice_mut
slice_LawfulMut = record {
  IsValid = λ s. length s.slice ≤ usize_max;
  written = λ s. s.passed;
  chunk_mut-pos = λ s v h. h;
  chunk_mut-le = λ s v. omega arith;
  chunk_mut-remaining_mut = λ s v. refl;
  fill-remaining_mut = λ s bs v h. length-fill s bs h;
  advance_mut-done = λ s bs cnt v e h.
      let (t, r, le, w, len) = slice_mut-done s bs cnt e h in (t, r, omega arith, w, len);
}

-- On a slice, the override of `put_slice` writes what the loop of the trait writes, and panics
-- where it does.
pub put_slice-put_slice :
    (s : SliceMut) (src : List ℕ) → put_slice s src ≡ Put.put_slice slice_mut s src
unfolding put_slice
put_slice-put_slice s src = elim (dec_lt (length s.slice) (length src)) [
  | yes short ↦
      let over : ltb (length s.slice) (length src) ≡ true = ground arith in
      rw over (sym (put_slice-panic slice_mut slice_LawfulMut s src short))
  | no room ↦
      let fits : ltb (length s.slice) (length src) ≡ false = ground arith in
      rw fits (by_length src (omega arith))
]
  where
    by_length :
        (src : List ℕ)
        → length src ≤ length s.slice
        → advance_mut (fill s src) (length src) ≡ Put.put_slice slice_mut s src
    by_length [] h =
        fill-advance_mut s [] 0 refl h
        ∙ ap (λ k. done (record { passed = k; slice = s.slice })) (append-nil s.passed)
        ∙ sym (put_slice-nil slice_mut s)
    by_length (x ∷ src) h = sym (put_slice_one slice_mut s x src h h)
