-- ===== src/Buf/Deque.antt =====
-- `impl Buf for VecDeque<u8>` of bytes/src/buf/vec_deque.rs.
use chiya.Prelude.{
  ℕ, zero, suc, ◌+◌, ◌-◌, ◌≤◌, ◌<◌, ◌≡◌, ap, sym, ◌∙◌, List, [], ◌∷◌, ◌++◌, length, drop, ◌==◌,
  Bool-cases, inl, inr, leb, if◌then◌else◌, arith, length-drop, length-append, append-nil,
  nil_of_length,
}
use chiya.Prelude.Looping.{Run, done, panic}
use chiya.Buf.{Buf, Lawful, usize_max}

-- `std::collections::VecDeque`: the two slices that `as_slices` gives.
pub record VecDeque : Type 0 where
  pub front : List ℕ
  pub back : List ℕ

abbrev pub contents_of : VecDeque → List ℕ
contents_of self = self.front ++ self.back

-- `drain(..cnt)` panics past the end; how the bytes left are split does not matter to a reader.
unfoldable pub advance : VecDeque → ℕ → Run VecDeque
advance self cnt =
    if leb cnt (length self.front + length self.back)
    then done
        (record { front = drop cnt self.front; back = drop (cnt - length self.front) self.back })
    else panic

abbrev pub chunk : VecDeque → List ℕ
chunk self = if length self.front == 0 then self.back else self.front

abbrev pub deque_buf : Buf VecDeque
deque_buf = record {
  remaining = λ self. length self.front + length self.back;
  chunk = chunk;
  advance = advance;
}

deque_advance :
    (s : VecDeque) (n : ℕ)
    → length s.front + length s.back ≤ usize_max
    → n ≤ length (contents_of s)
    → (t : VecDeque) × (advance s n ≡ done t)
      × (length t.front + length t.back ≤ usize_max)
      × (contents_of t ≡ drop n (contents_of s))
unfolding advance
deque_advance s n v h =
    let len = length-append s.front s.back in
    let len_f = length-drop n s.front in
    let len_b = length-drop (n - length s.front) s.back in
    (
      record { front = drop n s.front; back = drop (n - length s.front) s.back },
      ground arith,
      omega arith,
      drop-both n s.front s.back,
    )
  where
    drop-both : (n : ℕ) (xs ys : List ℕ) → drop n xs ++ drop (n - length xs) ys ≡ drop n (xs ++ ys)
    drop-both zero xs ys =
        let none_left : zero - length xs ≡ 0 = omega arith in ap (λ k. xs ++ drop k ys) none_left
    drop-both (suc n) [] ys = let all : suc n - 0 ≡ suc n = omega arith in ap (λ k. drop k ys) all
    drop-both (suc n) (x ∷ xs) ys =
        let same : suc n - suc (length xs) ≡ n - length xs = omega arith in
        ap (λ k. drop n xs ++ drop k ys) same ∙ drop-both n xs ys

deque_advance_panic :
    (s : VecDeque) (n : ℕ)
    → length s.front + length s.back ≤ usize_max
    → length (contents_of s) < n
    → advance s n ≡ panic
unfolding advance
deque_advance_panic s n v h = ground (arith, length-append s.front s.back)

chunk_rest_of : VecDeque → List ℕ
chunk_rest_of s = if length s.front == 0 then [] else s.back

chunk-append_of : (s : VecDeque) → contents_of s ≡ chunk s ++ chunk_rest_of s
unfolding chunk_rest_of
chunk-append_of s = elim (Bool-cases (length s.front == 0)) [
  | inl empty ↦
      let nil : s.front ≡ [] = nil_of_length _ (ground arith) in
      rw empty (ap (λ k. k ++ s.back) nil ∙ sym (append-nil s.back))
  | inr some_left ↦ rw some_left
]

chunk-pos_of : (s : VecDeque) → 0 < length (contents_of s) → 0 < length (chunk s)
chunk-pos_of s h =
    let len = length-append s.front s.back in
    elim (Bool-cases (length s.front == 0)) [
      | inl empty ↦ rw empty (ground arith)
      | inr some_left ↦ rw some_left (ground arith)
    ]

-- A `VecDeque` is a lawful buffer of its bytes.
pub deque_Lawful : Lawful deque_buf
deque_Lawful = record {
  IsValid = λ s. length s.front + length s.back ≤ usize_max;
  contents = contents_of;
  length_le = λ s v. omega (arith, length-append s.front s.back);
  remaining-eq = λ s v. sym (length-append s.front s.back);
  chunk_rest = chunk_rest_of;
  chunk-append = λ s v. chunk-append_of s;
  chunk-pos = λ s v h. chunk-pos_of s h;
  advance-done = deque_advance;
  advance-panic = deque_advance_panic;
}
