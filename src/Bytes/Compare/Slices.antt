-- ===== src/Bytes/Compare/Slices.antt =====
-- The comparisons of slices, which the standard library has and bytes/src/bytes.rs calls.
use chiya.Prelude.{
  ℕ, ◌≡◌, ◌↔◌, true, false, List, [], ◌∷◌, ◌==◌, ltb, refl, sym, ap, ◌∙◌, arith, Bool-cases, inl,
  inr,
}
use chiya.Bytes.Compare.{reverse, eq_slice, cmp_slice, equal}

pub eq_slice_iff : (xs ys : List ℕ) → (eq_slice xs ys ≡ true) ↔ (xs ≡ ys)
unfolding eq_slice
eq_slice_iff [] [] = (λ e. refl, λ e. refl)
eq_slice_iff [] (y ∷ ys) = (λ e. cc, λ e. cc)
eq_slice_iff (x ∷ xs) [] = (λ e. cc, λ e. cc)
eq_slice_iff (x ∷ xs) (y ∷ ys) = elim (Bool-cases (x == y)) [
  | inl alike ↦
      let e : x ≡ y = ground arith in
      let (to, from) = eq_slice_iff xs ys in
      rw alike (λ h. ap (λ k. k ∷ xs) e ∙ ap (λ k. y ∷ k) (to h), λ h. from cc)
  | inr differ ↦ rw differ (λ h. cc, λ h. let e : x ≡ y = cc in ground arith)
]

-- In the other order the answer is the reverse one.
pub cmp_slice-reverse : (xs ys : List ℕ) → cmp_slice ys xs ≡ reverse (cmp_slice xs ys)
unfolding cmp_slice
cmp_slice-reverse [] [] = refl
cmp_slice-reverse [] (y ∷ ys) = refl
cmp_slice-reverse (x ∷ xs) [] = refl
cmp_slice-reverse (x ∷ xs) (y ∷ ys) = elim (Bool-cases (ltb x y)) [
  | inl lt ↦ (let ge : ltb y x ≡ false = ground arith in rw (lt, ge) refl)
  | inr ge ↦ elim (Bool-cases (ltb y x)) [
    | inl gt ↦ rw (ge, gt) refl
    | inr le ↦ rw (ge, le) (cmp_slice-reverse xs ys)
  ]
]

cmp_slice_refl : (xs : List ℕ) → cmp_slice xs xs ≡ equal
unfolding cmp_slice
cmp_slice_refl [] = refl
cmp_slice_refl (x ∷ xs) = let no : ltb x x ≡ false = ground arith in rw no (cmp_slice_refl xs)

cmp_slice-equal : (xs ys : List ℕ) → cmp_slice xs ys ≡ equal → xs ≡ ys
unfolding cmp_slice
cmp_slice-equal [] [] e = refl
cmp_slice-equal [] (y ∷ ys) e = cc
cmp_slice-equal (x ∷ xs) [] e = cc
cmp_slice-equal (x ∷ xs) (y ∷ ys) e = elim (Bool-cases (ltb x y)) [
  | inl lt ↦ (let wrong = rw lt at e in cc)
  | inr ge ↦ elim (Bool-cases (ltb y x)) [
    | inl gt ↦ (let wrong = rw (ge, gt) at e in cc)
    | inr le ↦
        let rest : cmp_slice xs ys ≡ equal = rw (ge, le) at e in
        let head : x ≡ y = ground arith in
        ap (λ k. k ∷ xs) head ∙ ap (λ k. y ∷ k) (cmp_slice-equal xs ys rest)
  ]
]

pub slice-equal_iff : (xs ys : List ℕ) → (cmp_slice xs ys ≡ equal) ↔ (xs ≡ ys)
slice-equal_iff xs ys = (cmp_slice-equal xs ys, λ h. ap (cmp_slice xs) (sym h) ∙ cmp_slice_refl xs)
