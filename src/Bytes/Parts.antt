-- ===== src/Bytes/Parts.antt =====
-- What `slice`, `split_off` and `split_to` of bytes/src/bytes.rs show.
use chiya.Prelude.{
  ℕ, ◌+◌, ◌-◌, ◌≤◌, ◌<◌, ◌≡◌, inl, inr, true, false, List, [], take, drop, ◌==◌, leb, refl, sym, ap,
  ◌∙◌, arith, Bool-cases, take_all, length-drop, nil_of_length,
}
use chiya.Memory.{Ptr, add, Memory, ok, panic}
use native.Mathlib.Numerals.{unary_clauses}
use chiya.Memory.Returns.{Returns, returns, Returns-and_then}
use chiya.Bytes.{Bytes, slice_at, from_static, new, new_empty_with_ptr, as_slice, inc_start}
use chiya.Bytes.Split.{Bound, begin_of, end_of, slice, split_off, split_to, slice_ref, address_of}
use chiya.Bytes.Views.{Views, Good, slice_at-ok, Views-length, clone-Copies, part-Views}

-- The two handles show `xs` and `ys`.
abbrev pub Shown : List ℕ → List ℕ → Bytes × Bytes → Memory → Type 0
Shown xs ys p m = (as_slice p.0 m ≡ ok xs m) × (as_slice p.1 m ≡ ok ys m)

part-ok :
    (m m' : Memory) (b : Bytes) (xs : List ℕ) (start count : ℕ) (ptr : Ptr)
    → Views m b.ptr b.len xs
    → m'.block ≡ m.block
    → ptr ≡ add b.ptr start
    → start + count ≤ b.len
    → slice_at ptr count m' ≡ ok (take count (drop start xs)) m'
part-ok m m' b xs start count ptr v kept e le =
    slice_at-ok m' ptr count _ (part-Views m m' b.ptr b.len xs start count ptr v kept e le)

whole-ok :
    (m m' : Memory) (b : Bytes) (xs : List ℕ) (p : Ptr) (len : ℕ)
    → Views m b.ptr b.len xs
    → m'.block ≡ m.block
    → p ≡ b.ptr
    → len ≡ b.len
    → slice_at p len m' ≡ ok xs m'
whole-ok m m' b xs p len v kept e f =
    let n = Views-length m b.ptr b.len xs v in
    slice_at-ok m' p len xs (record {
      bytes = v.bytes;
      live = ap (λ q. m'.block q.block) e ∙ ap (λ g. g b.ptr.block) kept ∙ v.live;
      inside = (let o = ap (λ q. q.offset) e in let i = v.inside in omega arith);
      shows =
          ap (λ q. take len (drop q.offset v.bytes)) e
          ∙ ap (λ k. take k (drop b.ptr.offset v.bytes)) f
          ∙ v.shows;
    })

-- On a live handle that shows `xs`, with any of the six tables and bounds that stand for `i` and
-- `j` in order and at most the length, `slice` returns, `self` shows `xs` still, and the slice
-- shows the bytes from `i` to `j`.
pub slice-Shown :
    (m : Memory) (b : Bytes) (xs : List ℕ) (start_bound end_bound : Bound) (i j : ℕ)
    → Good m b xs
    → begin_of start_bound m ≡ ok i m
    → end_of end_bound b.len m ≡ ok j m
    → i ≤ j
    → j ≤ b.len
    → Returns (Shown xs (take (j - i) (drop i xs))) (slice b start_bound end_bound m)
unfolding slice new from_static slice_at as_slice
slice-Shown m b xs start_bound end_bound i j good begin end le fits =
    let ordered : leb i j ≡ true = ground arith in
    let inside : leb j b.len ≡ true = ground arith in
    elim (Bool-cases (j == i)) [
      | inl none_there ↦
          let zero : 0 ≡ j - i = ground arith in
          rw (begin, end, ordered, inside, none_there)
            (returns (
              whole-ok m m b xs b.ptr b.len good.views refl refl refl,
              ap (λ k. ok (take k (drop i xs)) m) zero,
            ))
      | inr some_there ↦
          rw (begin, end, ordered, inside, some_there)
            (Returns-and_then (clone-Copies m b xs good) (λ p m' c. returns (
              whole-ok m m' b xs p.0.ptr p.0.len good.views c.kept c.ptr c.len,
              part-ok m m' b xs i (j - i) (add p.1.ptr i) good.views c.kept
                  (ap (λ q. add q i) c.copy_ptr) (omega arith),
            )))
    ]

-- The halves of what a handle shows, cut in one of three ways.
halves-Shown :
    (m m' : Memory) (b : Bytes) (xs : List ℕ) (at : ℕ) (front back : Ptr)
    → Views m b.ptr b.len xs
    → m'.block ≡ m.block
    → front ≡ b.ptr
    → back ≡ add b.ptr at
    → at ≤ b.len
    → (slice_at front at m' ≡ ok (take at xs) m')
      × (slice_at back (b.len - at) m' ≡ ok (drop at xs) m')
halves-Shown m m' b xs at front back v kept e f le =
    let n = Views-length m b.ptr b.len xs v in
    let start : front ≡ add b.ptr 0 = e ∙ simp unary_clauses refl in
    (
      part-ok m m' b xs 0 at front v kept start (omega arith),
      part-ok m m' b xs at (b.len - at) back v kept f (omega arith)
          ∙ ap (λ k. ok k m')
              (take_all (b.len - at) (drop at xs) (omega (arith, length-drop at xs))),
    )

-- Where everything is in one of the halves.
nothing-left : (m : Memory) (b : Bytes) (xs : List ℕ) → Views m b.ptr b.len xs → drop b.len xs ≡ []
nothing-left m b xs v =
    nil_of_length (drop b.len xs)
      (omega (arith, length-drop b.len xs, Views-length m b.ptr b.len xs v))

cut_at_end :
    (m : Memory) (b : Bytes) (xs : List ℕ) (at : ℕ)
    → Views m b.ptr b.len xs
    → at ≡ b.len
    → (as_slice b m ≡ ok (take at xs) m) × (ok [] m ≡ ok (drop at xs) m)
unfolding as_slice
cut_at_end m b xs at v e =
    let n = Views-length m b.ptr b.len xs v in
    (
      slice_at-ok m b.ptr b.len xs v ∙ ap (λ k. ok k m) (sym (take_all at xs (omega arith))),
      ap (λ k. ok k m) (sym (ap (λ k. drop k xs) e ∙ nothing-left m b xs v)),
    )

cut_at_start :
    (m : Memory) (b : Bytes) (xs : List ℕ) (at : ℕ)
    → Views m b.ptr b.len xs
    → at ≡ 0
    → (ok [] m ≡ ok (take at xs) m) × (as_slice b m ≡ ok (drop at xs) m)
unfolding as_slice
cut_at_start m b xs at v e = (
  ap (λ k. ok (take k xs) m) (sym e),
  slice_at-ok m b.ptr b.len xs v ∙ ap (λ k. ok (drop k xs) m) (sym e),
)

-- On a live handle that shows `xs`, with any of the six tables, `split_off` at most at the length
-- returns; `self` shows the first `at` bytes, and the other handle the rest.
pub split_off-Shown :
    (m : Memory) (b : Bytes) (xs : List ℕ) (at : ℕ)
    → Good m b xs
    → at ≤ b.len
    → Returns (Shown (take at xs) (drop at xs)) (split_off b at m)
unfolding split_off new_empty_with_ptr slice_at as_slice inc_start
split_off-Shown m b xs at good le = elim (Bool-cases (at == b.len)) [
  | inl end ↦
      let (all, none_left) = cut_at_end m b xs at good.views (ground arith) in
      rw end (returns (all, none_left))
  | inr inner ↦ elim (Bool-cases (at == 0)) [
    | inl start ↦
        let (none_left, all) = cut_at_start m b xs at good.views (ground arith) in
        rw (inner, start) (returns (none_left, all))
    | inr middle ↦
        let inside : leb at b.len ≡ true = ground arith in
        rw (inner, middle, inside)
          (Returns-and_then (clone-Copies m b xs good) (λ p m' c.
            let len = c.copy_len in
            let fits : leb at p.1.len ≡ true = ground arith in
            let rest : p.1.len - at ≡ b.len - at = omega arith in
            let (front, back) =
              halves-Shown m m' b xs at p.0.ptr (add p.1.ptr at) good.views c.kept c.ptr
                (ap (λ q. add q at) c.copy_ptr) le in
            rw fits (returns (front, ap (λ k. slice_at (add p.1.ptr at) k m') rest ∙ back))))
  ]
]

pub split_to-Shown :
    (m : Memory) (b : Bytes) (xs : List ℕ) (at : ℕ)
    → Good m b xs
    → at ≤ b.len
    → Returns (Shown (drop at xs) (take at xs)) (split_to b at m)
unfolding split_to new_empty_with_ptr slice_at as_slice inc_start
split_to-Shown m b xs at good le = elim (Bool-cases (at == b.len)) [
  | inl end ↦
      let (all, none_left) = cut_at_end m b xs at good.views (ground arith) in
      rw end (returns (none_left, all))
  | inr inner ↦ elim (Bool-cases (at == 0)) [
    | inl start ↦
        let (none_left, all) = cut_at_start m b xs at good.views (ground arith) in
        rw (inner, start) (returns (all, none_left))
    | inr middle ↦
        let inside : leb at b.len ≡ true = ground arith in
        rw (inner, middle, inside)
          (Returns-and_then (clone-Copies m b xs good) (λ p m' c.
            let len = c.len in
            let fits : leb at p.0.len ≡ true = ground arith in
            let rest : p.0.len - at ≡ b.len - at = omega arith in
            let (front, back) =
              halves-Shown m m' b xs at p.1.ptr (add p.0.ptr at) good.views c.kept c.copy_ptr
                (ap (λ q. add q at) c.ptr) le in
            rw fits (returns (ap (λ k. slice_at (add p.0.ptr at) k m') rest ∙ back, front))))
  ]
]

-- `slice_ref` panics on every subset that is not empty and starts behind the start of the handle.
pub slice_ref-panic :
    (base : ℕ → ℕ) (m : Memory) (b : Bytes) (subset_ptr : Ptr) (subset_len : ℕ)
    → 1 ≤ subset_len
    → address_of base b.ptr < address_of base subset_ptr
    → slice_ref base b subset_ptr subset_len m ≡ panic
unfolding slice_ref
slice_ref-panic base m b subset_ptr subset_len pos behind =
    let some_there : (subset_len == 0) ≡ false = ground arith in
    let refused : leb (address_of base subset_ptr) (address_of base b.ptr) ≡ false = ground arith in
    rw (some_there, refused) refl
