-- ===== src/Memory/Windows.antt =====
-- Windows of a block of bytes, and what a write leaves of them.
use chiya.Prelude.{
  ℕ, zero, suc, ◌+◌, ◌-◌, ◌≤◌, ◌≡◌, sym, ap, ◌∙◌, List, [], ◌∷◌, ◌++◌, length, take, drop, min,
  arith, take-nil, drop-nil, take-split, drop-drop, drop-append_le, drop-append_ge, take-append_le,
  take_all, length-take, length-drop, length-append,
}
use chiya.Memory.Access.{splice}

module _ {ℓ} {A : Type ℓ} where
  pub take-min : (i j : ℕ) (xs : List A) → take (min j i) xs ≡ take i (take j xs)
  take-min zero j xs = let e : min j zero ≡ zero = omega arith in ap (λ k. take k xs) e
  take-min (suc i) zero xs =
      let e : min zero (suc i) ≡ zero = omega arith in
      ap (λ k. take k xs) e ∙ sym (take-nil (suc i))
  take-min (suc i) (suc j) [] = take-nil (min (suc j) (suc i))
  take-min (suc i) (suc j) (x ∷ xs) =
      let e : min (suc j) (suc i) ≡ suc (min j i) = omega arith in
      ap (λ k. take k (x ∷ xs)) e ∙ ap (λ k. x ∷ k) (take-min i j xs)

  pub drop-take : (i j : ℕ) (xs : List A) → take (j - i) (drop i xs) ≡ drop i (take j xs)
  drop-take zero j xs = ap (λ k. take k xs) (omega arith)
  drop-take (suc i) zero xs =
      let e : zero - suc i ≡ zero = omega arith in
      ap (λ k. take k (drop (suc i) xs)) e ∙ sym (drop-nil (suc i))
  drop-take (suc i) (suc j) [] = take-nil (suc j - suc i)
  drop-take (suc i) (suc j) (x ∷ xs) =
      let e : suc j - suc i ≡ j - i = omega arith in
      ap (λ k. take k (drop i xs)) e ∙ drop-take i j xs

  pub take-take_le : (i j : ℕ) (xs : List A) → i ≤ j → take i (take j xs) ≡ take i xs
  take-take_le i j xs le = sym (take-min i j xs) ∙ ap (λ k. take k xs) (omega arith)

  -- A window before the place where `xs` is cut.
  pub window-before :
      (off len i : ℕ) (xs rest : List A)
      → off + len ≤ i
      → i ≤ length xs
      → take len (drop off (take i xs ++ rest)) ≡ take len (drop off xs)
  window-before off len i xs rest le inside =
      let n = length-take i xs in
      let d = length-drop off (take i xs) in
      ap (take len) (drop-append_le off (take i xs) rest (omega arith))
      ∙ take-append_le len (drop off (take i xs)) rest (omega arith)
      ∙ ap (take len) (sym (drop-take off i xs))
      ∙ take-take_le len (i - off) (drop off xs) (omega arith)

  pub drop-after :
      (off i : ℕ) (xs ys : List A)
      → length xs ≤ off
      → i ≡ off - length xs
      → drop off (xs ++ ys) ≡ drop i ys
  drop-after off i xs ys le e = drop-append_ge off xs ys le ∙ ap (λ k. drop k ys) (sym e)

pub window-splice_before :
    (off len i : ℕ) (src bs : List ℕ)
    → off + len ≤ i
    → i ≤ length bs
    → take len (drop off (splice i src bs)) ≡ take len (drop off bs)
window-splice_before off len i src bs le inside =
    window-before off len i bs (src ++ drop (i + length src) bs) le inside

pub window-splice_after :
    (off len i : ℕ) (src bs : List ℕ)
    → i + length src ≤ off
    → i ≤ length bs
    → take len (drop off (splice i src bs)) ≡ take len (drop off bs)
window-splice_after off len i src bs le inside =
    let n = length-take i bs in
    ap (take len) (
      drop-after off (off - i) (take i bs) (src ++ drop (i + length src) bs) (omega arith)
        (omega arith)
      ∙ drop-after (off - i) (off - (i + length src)) src (drop (i + length src) bs) (omega arith)
          (omega arith)
      ∙ drop-drop (i + length src) (off - (i + length src)) bs
      ∙ ap (λ k. drop k bs) (omega arith))

pub window-splice_at :
    (i : ℕ) (src bs : List ℕ) → i ≤ length bs → take (length src) (drop i (splice i src bs)) ≡ src
window-splice_at i src bs inside =
    let n = length-take i bs in
    ap (take (length src))
      (drop-after i 0 (take i bs) (src ++ drop (i + length src) bs) (omega arith) (omega arith))
    ∙ take-append_le (length src) src (drop (i + length src) bs) (omega arith)
    ∙ take_all (length src) src (omega arith)

-- What a window shows that `src` is written behind.
pub window-splice_extend :
    (off len : ℕ) (src bs : List ℕ)
    → off + len ≤ length bs
    → take (len + length src) (drop off (splice (off + len) src bs)) ≡ take len (drop off bs) ++ src
window-splice_extend off len src bs inside =
    let after = splice (off + len) src bs in
    take-split len (len + length src) (drop off after) (omega arith)
    ∙ ap (λ k. k ++ take (len + length src - len) (drop len (drop off after)))
        (window-splice_before off len (off + len) src bs (omega arith) inside)
    ∙ ap (λ k. take len (drop off bs) ++ k)
        (ap (λ k. take k (drop len (drop off after))) (omega arith)
          ∙ ap (take (length src)) (drop-drop off len after)
          ∙ window-splice_at (off + len) src bs inside)

pub length-splice :
    (i : ℕ) (src bs : List ℕ) → i + length src ≤ length bs → length (splice i src bs) ≡ length bs
length-splice i src bs inside =
    let n = length-take i bs in
    let d = length-drop (i + length src) bs in
    let a = length-append (take i bs) (src ++ drop (i + length src) bs) in
    let b = length-append src (drop (i + length src) bs) in omega arith
