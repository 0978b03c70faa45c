-- ===== src/Buf/Chain.antt =====
-- `Chain` of bytes/src/buf/chain.rs, as a `Buf`.
use chiya.Prelude.{
  ℕ, ◌+◌, ◌-◌, ◌≤◌, ◌<◌, ◌≡◌, ap, sym, ◌∙◌, List, [], ◌++◌, length, drop, min, ltb, ◌==◌, not,
  if◌then◌else◌, arith, length-drop, length-append, Bool-cases, inl, inr, true, false, append_assoc,
  drop-append_le, drop-append_ge, dec_lt, nil_of_length,
}
use chiya.Prelude.Looping.{Run, done, panic, ◌>>=◌}
use chiya.Buf.{Buf, Lawful, usize_max}
use chiya.Buf.Read.{has_remaining}

pub record Chain (S T : Type 0) : Type 0 where
  pub a : S
  pub b : T

module _ {S T : Type 0} (p : Buf S) (q : Buf T) where
  -- The two calls of `advance` on `b`.
  abbrev advance_b : S → T → ℕ → Run (Chain S T)
  advance_b a b cnt = q.advance b cnt >>= λ b'. done (record { a = a; b = b' })

  unfoldable pub advance : Chain S T → ℕ → Run (Chain S T)
  advance self cnt =
      let a_rem = p.remaining self.a in
      if not (a_rem == 0)
      then (if ltb cnt a_rem
          then (p.advance self.a cnt >>= λ a'. done (record { a = a'; b = self.b }))
          else (p.advance self.a a_rem >>= λ a'. advance_b a' self.b (cnt - a_rem)))
      else advance_b self.a self.b cnt

  abbrev pub chain_buf : Buf (Chain S T)
  chain_buf = record {
    -- `saturating_add`
    remaining = λ self. min (p.remaining self.a + q.remaining self.b) usize_max;
    chunk = λ self. if has_remaining p self.a then p.chunk self.a else q.chunk self.b;
    advance = advance;
  }

module _ {S T : Type 0} (p : Buf S) (q : Buf T) (l : Lawful p) (m : Lawful q) where
  abbrev pub contents_of : Chain S T → List ℕ
  contents_of s = l.contents s.a ++ m.contents s.b

  -- Both are valid, and the sum of their lengths is a `usize`.
  abbrev pub IsValid : Chain S T → Type 0
  IsValid s = l.IsValid s.a × m.IsValid s.b × (length (contents_of s) ≤ usize_max)

  within_a :
      (s : Chain S T) (n : ℕ)
      → IsValid s
      → n < length (l.contents s.a)
      → (t : Chain S T) × (advance p q s n ≡ done t)
        × IsValid t
        × (contents_of t ≡ drop n (contents_of s))
  unfolding advance
  within_a s n (va, vb, h) lt =
      let (a, e, va', ca) = l.advance-done s.a n va (omega arith) in
      let some_a : not (p.remaining s.a == 0) ≡ true = ground (arith, l.remaining-eq s.a va) in
      let more : ltb n (p.remaining s.a) ≡ true = ground (arith, l.remaining-eq s.a va) in
      let same : l.contents a ++ m.contents s.b ≡ drop n (contents_of s) =
        ap (λ k. k ++ m.contents s.b) ca
        ∙ sym (drop-append_le n (l.contents s.a) (m.contents s.b) (omega arith)) in
      (
        record { a = a; b = s.b },
        rw (some_a, more, e),
        (va', vb, rw same (omega (arith, length-drop n (contents_of s)))),
        same,
      )

  -- `a` is read to its end, and `b` goes on.
  past_a :
      (s : Chain S T) (n : ℕ)
      → IsValid s
      → length (l.contents s.a) ≤ n
      → n ≤ length (contents_of s)
      → (t : Chain S T) × (advance p q s n ≡ done t)
        × IsValid t
        × (contents_of t ≡ drop n (contents_of s))
  unfolding advance
  past_a s n (va, vb, h) ge fits =
      let len = length-append (l.contents s.a) (m.contents s.b) in
      let left : ℕ = n - length (l.contents s.a) in
      let (b, f, vb', cb) = m.advance-done s.b left vb (omega arith) in
      let rest : m.contents b ≡ drop n (contents_of s) =
        cb ∙ sym (drop-append_ge n (l.contents s.a) (m.contents s.b) ge) in
      elim (Bool-cases (p.remaining s.a == 0)) [
        | inl none_left ↦
            let nil : l.contents s.a ≡ [] =
              nil_of_length _ (ground (arith, l.remaining-eq s.a va)) in
            let all : n ≡ left = ground (arith, l.remaining-eq s.a va) in
            let call : q.advance s.b n ≡ done b = ap (q.advance s.b) all ∙ f in
            finish s.a b (rw none_left (rw call)) va vb' (ap (λ k. k ++ m.contents b) nil ∙ rest)
        | inr some_left ↦
            let len_a = l.remaining-eq s.a va in
            let (a, e, va', ca) = l.advance-done s.a (p.remaining s.a) va (omega arith) in
            let nil : l.contents a ≡ [] =
              nil_of_length _
                (rw ca (omega (arith, length-drop (p.remaining s.a) (l.contents s.a)))) in
            let all : n - p.remaining s.a ≡ left = omega arith in
            let call : q.advance s.b (n - p.remaining s.a) ≡ done b = ap (q.advance s.b) all ∙ f in
            let not_more : ltb n (p.remaining s.a) ≡ false = ground arith in
            finish a b (rw (some_left, not_more, e) (rw call)) va' vb'
              (ap (λ k. k ++ m.contents b) nil ∙ rest)
      ]
    where
      finish :
          (a : S) (b : T)
          → advance p q s n ≡ done (record { a = a; b = b })
          → l.IsValid a
          → m.IsValid b
          → l.contents a ++ m.contents b ≡ drop n (contents_of s)
          → (t : Chain S T) × (advance p q s n ≡ done t)
            × IsValid t
            × (contents_of t ≡ drop n (contents_of s))
      finish a b e va vb c = (
        record { a = a; b = b },
        e,
        (va, vb, rw c (omega (arith, length-drop n (contents_of s)))),
        c,
      )

  pub chain_advance :
      (s : Chain S T) (n : ℕ)
      → IsValid s
      → n ≤ length (contents_of s)
      → (t : Chain S T) × (advance p q s n ≡ done t)
        × IsValid t
        × (contents_of t ≡ drop n (contents_of s))
  chain_advance s n v fits = elim (dec_lt n (length (l.contents s.a))) [
    | yes lt ↦ within_a s n v lt
    | no ge ↦ past_a s n v (omega arith) fits
  ]

  pub chain_advance_panic :
      (s : Chain S T) (n : ℕ) → IsValid s → length (contents_of s) < n → advance p q s n ≡ panic
  unfolding advance
  chain_advance_panic s n (va, vb, h) over =
      let len = length-append (l.contents s.a) (m.contents s.b) in
      let len_a = l.remaining-eq s.a va in
      elim (Bool-cases (p.remaining s.a == 0)) [
        | inl none_left ↦ rw none_left (rw (m.advance-panic s.b n vb (omega arith)))
        | inr some_left ↦
            let (a, e, _, _) = l.advance-done s.a (p.remaining s.a) va (omega arith) in
            let not_more : ltb n (p.remaining s.a) ≡ false = ground arith in
            rw (some_left, not_more, e)
              (rw (m.advance-panic s.b (n - p.remaining s.a) vb (omega arith)))
      ]

  pub hidden_of : Chain S T → List ℕ
  hidden_of s = if has_remaining p s.a then l.chunk_rest s.a ++ m.contents s.b else m.chunk_rest s.b

  pub chunk_of :
      (s : Chain S T) → IsValid s → contents_of s ≡ (chain_buf p q).chunk s ++ hidden_of s
  unfolding hidden_of
  chunk_of s (va, vb, h) = elim (Bool-cases (has_remaining p s.a)) [
    | inl more ↦
        rw (more, l.chunk-append s.a va)
          (append_assoc (p.chunk s.a) (l.chunk_rest s.a) (m.contents s.b))
    | inr none_left ↦
        let nil : l.contents s.a ≡ [] = nil_of_length _ (ground (arith, l.remaining-eq s.a va)) in
        rw (none_left, nil) (m.chunk-append s.b vb)
  ]

  pub chunk_of_pos :
      (s : Chain S T)
      → IsValid s
      → 0 < length (contents_of s)
      → 0 < length ((chain_buf p q).chunk s)
  chunk_of_pos s (va, vb, h) pos =
      let len = length-append (l.contents s.a) (m.contents s.b) in
      elim (Bool-cases (has_remaining p s.a)) [
        | inl more ↦ rw more (l.chunk-pos s.a va (ground (arith, l.remaining-eq s.a va)))
        | inr none_left ↦ rw none_left (m.chunk-pos s.b vb (ground (arith, l.remaining-eq s.a va)))
      ]

  -- A `Chain` of lawful buffers is the lawful buffer of the bytes of both.
  unfoldable pub chain_Lawful : Lawful (chain_buf p q)
  chain_Lawful = record {
    IsValid = IsValid;
    contents = contents_of;
    length_le = λ s v. v.2;
    remaining-eq = λ s v. omega (
      arith,
      length-append (l.contents s.a) (m.contents s.b),
      l.remaining-eq s.a v.0,
      m.remaining-eq s.b v.1,
      v.2,
    );
    chunk_rest = hidden_of;
    chunk-append = chunk_of;
    chunk-pos = chunk_of_pos;
    advance-done = chain_advance;
    advance-panic = chain_advance_panic;
  }
