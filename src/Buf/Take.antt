-- ===== src/Buf/Take.antt =====
-- `Take` of bytes/src/buf/take.rs.
use chiya.Prelude.{
  ℕ, zero, suc, ◌-◌, ◌≤◌, ◌<◌, ◌≡◌, refl, ap, sym, ◌∙◌, List, [], ◌∷◌, ◌++◌, length, take, drop,
  min, leb, arith, length-take, take-nil, take-append-drop, take-append_le, Bool-cases, inl, inr,
  true,
}
use chiya.Prelude.Looping.{Run, done, panic, ◌>>=◌, ◌>>◌, assert}
use chiya.Buf.{Buf, Lawful}

pub record Take (S : Type 0) : Type 0 where
  pub inner : S
  pub limit : ℕ

module _ {S : Type 0} (b : Buf S) where
  unfoldable pub advance : Take S → ℕ → Run (Take S)
  advance self cnt = do
    assert (leb cnt self.limit)
    inner ← b.advance self.inner cnt
    done (record { inner = inner; limit = self.limit - cnt })

  abbrev pub take_buf : Buf (Take S)
  take_buf = record {
    remaining = λ self. min (b.remaining self.inner) self.limit;
    chunk = λ self. let bytes = b.chunk self.inner in take (min (length bytes) self.limit) bytes;
    advance = advance;
  }

drop-take :
    (n limit : ℕ) (xs : List ℕ) → n ≤ limit → drop n (take limit xs) ≡ take (limit - n) (drop n xs)
drop-take zero limit xs h = ap (λ k. take k xs) (omega arith)
drop-take (suc n) zero xs h = absurd (omega arith)
drop-take (suc n) (suc limit) [] h = sym (take-nil _)
drop-take (suc n) (suc limit) (x ∷ xs) h =
    drop-take n limit xs (omega arith) ∙ ap (λ k. take k (drop n xs)) (omega arith)

take-take : (n limit : ℕ) (xs : List ℕ) → n ≤ limit → take n (take limit xs) ≡ take n xs
take-take zero limit xs h = refl
take-take (suc n) zero xs h = absurd (omega arith)
take-take (suc n) (suc limit) [] h = refl
take-take (suc n) (suc limit) (x ∷ xs) h = ap (λ k. x ∷ k) (take-take n limit xs (omega arith))

module _ {S : Type 0} (b : Buf S) (l : Lawful b) where
  unfoldable pub contents_of : Take S → List ℕ
  contents_of self = take self.limit (l.contents self.inner)

  pub length-contents_of :
      (s : Take S) → length (contents_of s) ≡ min s.limit (length (l.contents s.inner))
  unfolding contents_of
  length-contents_of s = length-take s.limit (l.contents s.inner)

  abbrev pub shown : Take S → ℕ
  shown s = min (length (b.chunk s.inner)) s.limit

  pub chunk_of :
      (s : Take S)
      → l.IsValid s.inner
      → contents_of s ≡ take (shown s) (b.chunk s.inner) ++ drop (shown s) (contents_of s)
  unfolding contents_of
  chunk_of s v =
      let c = shown s in
      let all = l.contents s.inner in
      let same : take c (take s.limit all) ≡ take c (b.chunk s.inner) =
        take-take c s.limit all (omega arith)
        ∙ ap (take c) (l.chunk-append s.inner v)
        ∙ take-append_le c (b.chunk s.inner) (l.chunk_rest s.inner) (omega arith) in
      sym (take-append-drop c (take s.limit all)) ∙ ap (λ k. k ++ drop c (take s.limit all)) same

  pub take_advance :
      (s : Take S) (n : ℕ)
      → l.IsValid s.inner
      → n ≤ length (contents_of s)
      → (t : Take S) × (advance b s n ≡ done t)
        × l.IsValid t.inner
        × (contents_of t ≡ drop n (contents_of s))
  unfolding advance contents_of
  take_advance s n v h =
      let len = length-take s.limit (l.contents s.inner) in
      let fits : leb n s.limit ≡ true = ground arith in
      let (t, e, vt, ct) = l.advance-done s.inner n v (omega arith) in
      (
        record { inner = t; limit = s.limit - n },
        rw (fits, e),
        vt,
        ap (take (s.limit - n)) ct ∙ sym (drop-take n s.limit (l.contents s.inner) (omega arith)),
      )

  pub take_advance_panic :
      (s : Take S) (n : ℕ) → l.IsValid s.inner → length (contents_of s) < n → advance b s n ≡ panic
  unfolding advance contents_of
  take_advance_panic s n v h =
      let len = length-take s.limit (l.contents s.inner) in
      elim (Bool-cases (leb n s.limit)) [
        | inl fits ↦ rw fits (rw (l.advance-panic s.inner n v (ground arith)))
        | inr over ↦ rw over
      ]

  -- A `Take` over a lawful buffer is the lawful buffer of the first `limit` of its bytes.
  unfoldable pub take_Lawful : Lawful (take_buf b)
  unfolding contents_of
  take_Lawful = record {
    IsValid = λ s. l.IsValid s.inner;
    contents = contents_of;
    length_le = λ s v. omega (arith, length-contents_of s, l.length_le s.inner v);
    remaining-eq = λ s v. omega (arith, length-contents_of s, l.remaining-eq s.inner v);
    chunk_rest = λ s. drop (shown s) (contents_of s);
    chunk-append = chunk_of;
    chunk-pos = λ s v h. omega (
      arith,
      length-contents_of s,
      length-take (shown s) (b.chunk s.inner),
      l.chunk-pos s.inner v,
    );
    advance-done = take_advance;
    advance-panic = take_advance_panic;
  }
