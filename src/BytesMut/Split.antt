-- ===== src/BytesMut/Split.antt =====
-- `split_off` and `split_to` of bytes/src/bytes_mut.rs: two halves of one window.
use chiya.Prelude.{
  ℕ, ◌+◌, ◌-◌, ◌%◌, ◌≤◌, ◌≡◌, List, length, take, drop, min, true, arith, ◌==◌, leb, refl, false,
  inl, inr, ◌∙◌, sym, ap, drop-drop, Bool-cases,
}
use mathlib.Core.Path.{subst}
use chiya.Memory.{add, Memory, ok, IsFresh}
use chiya.Memory.Windows.{take-min, drop-take}
use native.Mathlib.Numerals.{unary_clauses}
use chiya.Memory.Returns.{Returns, returns, Returns-and_then}
use chiya.BufMut.Vec.{isize_max}
use chiya.BytesMut.{BytesMut, advance_unchecked, note_offset, split_off, split_to}
use chiya.BytesMut.Valid.{Valid, window}
use chiya.BytesMut.Clone.{Twins, shallow_clone-Twins}

-- A handle moved on by `c` bytes.
abbrev pub moved : BytesMut → ℕ → BytesMut
moved h c = record h { ptr = add h.ptr c; len = h.len - c; cap = h.cap - c }

pub advance_unchecked-even :
    (m : Memory) (h : BytesMut) (c : ℕ)
    → h.word % 2 ≡ 0
    → c ≤ h.cap
    → advance_unchecked h c m ≡ ok (moved h c) m
unfolding advance_unchecked note_offset
advance_unchecked-even m h c even le =
    let inside : leb c h.cap ≡ true = ground arith in
    let arc : (h.word % 2 == 1) ≡ false = ground arith in
    elim (Bool-cases (c == 0)) [
      | inl none_left ↦ (let zero : c ≡ 0 = ground arith in rw zero (simp unary_clauses refl))
      | inr some_left ↦ rw (some_left, inside, arc) refl
    ]

-- Another window of the same block and the same box.
pub Valid-window :
    (m : Memory) (h g : BytesMut) (bs : List ℕ) (n : ℕ)
    → Valid m h bs n
    → h.word % 2 ≡ 0
    → g.word ≡ h.word
    → g.ptr.block ≡ h.ptr.block
    → g.ptr.offset + g.cap ≤ length bs
    → g.len ≤ g.cap
    → Valid m g bs n
Valid-window m h g bs n v even word block inside len_le = record {
  live = rw block v.live;
  inside = inside;
  len_le = len_le;
  small = v.small;
  form = elim v.form [
    | inl (odd, _, _, _, _) ↦ absurd (omega arith)
    | inr (_, vec, repr, box, buf, whole, small, pos) ↦
        inr (omega arith, vec, repr, rw word box, buf ∙ sym block, whole, small, pos)
  ];
}

-- Handles that stand next to each other in one block and show `xs` and `ys`.
pub record Halves (m : Memory) (a b : BytesMut) (bs : List ℕ) (n : ℕ) (xs ys : List ℕ)
    : Type 0 where
  pub fresh : IsFresh m
  pub left : Valid m a bs n
  pub right : Valid m b bs n
  pub left_shows : window a bs ≡ xs
  pub right_shows : window b bs ≡ ys
  pub block : b.ptr.block ≡ a.ptr.block
  pub apart : b.ptr.offset ≡ a.ptr.offset + a.cap
  pub word : b.word ≡ a.word
  pub even : a.word % 2 ≡ 0

-- The window of `h` cut at `at`; no byte moves.
pub record Cuts (m : Memory) (h : BytesMut) (bs : List ℕ) (n at : ℕ) (a b : BytesMut) (m' : Memory)
    : Type 0 where
  pub halves : Halves m' a b bs (n + 1) (take at (window h bs)) (drop at (window h bs))
  pub kept : m'.block ≡ m.block
  pub ptr : a.ptr ≡ h.ptr
  pub len : a.len ≡ min h.len at
  pub cap : a.cap ≡ at
  pub rest : b.cap ≡ h.cap - at

Twins-Halves :
    (m m' : Memory) (h : BytesMut) (bs : List ℕ) (n at : ℕ) (p : BytesMut × BytesMut)
    → Valid m h bs n
    → at ≤ h.cap
    → Twins m h bs n p m'
    → Halves m'
        (record p.0 { cap = at; len = min p.0.len at })
        (moved p.0 at)
        bs
        (n + 1)
        (take at (window h bs))
        (drop at (window h bs))
Twins-Halves m m' h bs n at p v le t =
    let len = ap (λ x. x.len) t.place in
    let cap = ap (λ x. x.cap) t.place in
    let offset = ap (λ x. x.ptr.offset) t.place in
    let inside = v.inside in
    let len_le = v.len_le in
    record {
      fresh = t.fresh;
      left = Valid-window m' p.0 _ bs (n + 1) t.valid t.even refl refl (omega arith) (ground arith);
      right = Valid-window m' p.0 _ bs (n + 1) t.valid t.even refl refl (omega arith) (omega arith);
      left_shows = rw (len, offset) (take-min at h.len (drop h.ptr.offset bs));
      right_shows =
          rw (len, offset)
            (ap (take (h.len - at)) (sym (drop-drop h.ptr.offset at bs))
              ∙ drop-take at h.len (drop h.ptr.offset bs));
      block = refl;
      apart = refl;
      word = refl;
      even = t.even;
    }

Twins-Cuts :
    (m m' : Memory) (h : BytesMut) (bs : List ℕ) (n at : ℕ) (p : BytesMut × BytesMut)
    → Valid m h bs n
    → at ≤ h.cap
    → Twins m h bs n p m'
    → Cuts m h bs n at (record p.0 { cap = at; len = min p.0.len at }) (moved p.0 at) m'
Twins-Cuts m m' h bs n at p v le t = record {
  halves = Twins-Halves m m' h bs n at p v le t;
  kept = t.kept;
  ptr = ap (λ x. x.ptr) t.place;
  len = ap (λ x. min x.len at) t.place;
  cap = refl;
  rest = ap (λ x. x.cap - at) t.place;
}

-- From a memory in which nothing is allocated past `next` and a valid handle with at most
-- `isize::MAX` handles of its block, `split_off` at most at the capacity returns two valid handles
-- of the block: the first shows the first `at` bytes and has the capacity `at`, the second starts
-- where that ends and shows the others; no byte is changed, and one handle more is counted.
pub split_off-Cuts :
    (m : Memory) (h : BytesMut) (bs : List ℕ) (n at : ℕ)
    → IsFresh m
    → Valid m h bs n
    → n ≤ isize_max
    → at ≤ h.cap
    → Returns (λ p m'. Cuts m h bs n at p.0 p.1 m') (split_off h at m)
unfolding split_off
split_off-Cuts m h bs n at fresh v few le =
    let fits : leb at h.cap ≡ true = ground arith in
    rw fits (
      Returns-and_then (shallow_clone-Twins m h bs n fresh v few) (λ p m' t.
        let cap = ap (λ x. x.cap) t.place in
        rw (t.alike, advance_unchecked-even m' p.0 at t.even (omega arith))
          (returns (Twins-Cuts m m' h bs n at p v le t))))

pub split_to-Cuts :
    (m : Memory) (h : BytesMut) (bs : List ℕ) (n at : ℕ)
    → IsFresh m
    → Valid m h bs n
    → n ≤ isize_max
    → at ≤ h.len
    → Returns (λ p m'. Cuts m h bs n at p.1 p.0 m') (split_to h at m)
unfolding split_to
split_to-Cuts m h bs n at fresh v few le =
    let fits : leb at h.len ≡ true = ground arith in
    let len_le = v.len_le in
    rw fits (
      Returns-and_then (shallow_clone-Twins m h bs n fresh v few) (λ p m' t.
        let cap = ap (λ x. x.cap) t.place in
        let len = ap (λ x. x.len) t.place in
        let e : min p.0.len at ≡ at = ground arith in
        rw (t.alike, advance_unchecked-even m' p.0 at t.even (omega arith))
          (returns (
            subst (λ k. Cuts m h bs n at (record p.0 { cap = at; len = k }) (moved p.0 at) m') e
              (Twins-Cuts m m' h bs n at p v (omega arith) t)))))
