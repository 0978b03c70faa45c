-- ===== src/BufMut/Chain.antt =====
-- `impl BufMut for Chain` of bytes/src/buf/chain.rs.
use chiya.Prelude.{
  ℕ, ◌+◌, ◌-◌, ◌≤◌, ◌<◌, ◌≡◌, ap, sym, ◌∙◌, true, false, List, [], ◌++◌, length, min, leb, ltb,
  ◌==◌, not, if◌then◌else◌, arith, append-nil, append_assoc, ◌⊎◌, inl, inr, Bool-cases,
}
use chiya.Prelude.Looping.{Run, done, ◌>>=◌}
use chiya.Buf.{usize_max}
use chiya.Buf.Chain.{Chain}
use chiya.BufMut.{BufMut, LawfulMut}
use chiya.BufMut.Put.{has_remaining_mut}

module _ {S T : Type 0} (p : BufMut S) (q : BufMut T) where
  abbrev advance_b : S → T → ℕ → Run (Chain S T)
  advance_b a b cnt = q.advance_mut b cnt >>= λ b'. done (record { a = a; b = b' })

  unfoldable pub advance_mut : Chain S T → ℕ → Run (Chain S T)
  advance_mut self cnt =
      let a_rem = p.remaining_mut self.a in
      if not (a_rem == 0)
      then (if leb cnt a_rem
          then (p.advance_mut self.a cnt >>= λ a'. done (record { a = a'; b = self.b }))
          else (p.advance_mut self.a a_rem >>= λ a'. advance_b a' self.b (cnt - a_rem)))
      else advance_b self.a self.b cnt

  abbrev pub chain_mut : BufMut (Chain S T)
  chain_mut = record {
    -- `saturating_add`
    remaining_mut = λ self. min (p.remaining_mut self.a + q.remaining_mut self.b) usize_max;
    chunk_mut = λ self.
        if has_remaining_mut p self.a
        then ((p.chunk_mut self.a).0, record { a = (p.chunk_mut self.a).1; b = self.b })
        else ((q.chunk_mut self.b).0, record { a = self.a; b = (q.chunk_mut self.b).1 });
    -- the slice is that of `a` while `a` has room
    fill = λ self bs.
        if has_remaining_mut p self.a
        then record { a = p.fill self.a bs; b = self.b }
        else record { a = self.a; b = q.fill self.b bs };
    advance_mut = advance_mut;
  }

module _ {S T : Type 0} (p : BufMut S) (q : BufMut T) (l : LawfulMut p) (m : LawfulMut q) where
  -- `b` is untouched while `a` has room, and all the room is a `usize`.
  abbrev pub IsValid : Chain S T → Type 0
  IsValid s =
      l.IsValid s.a
      × m.IsValid s.b
      × (p.remaining_mut s.a + q.remaining_mut s.b ≤ usize_max)
      × ((p.remaining_mut s.a ≡ 0) ⊎ (m.written s.b ≡ []))

  abbrev pub written_of : Chain S T → List ℕ
  written_of s = l.written s.a ++ m.written s.b

  abbrev pub Advances : Chain S T → List ℕ → ℕ → Type 0
  Advances s bs cnt =
      (t : Chain S T) × ((chain_mut p q).advance_mut
          ((chain_mut p q).fill ((chain_mut p q).chunk_mut s).1 bs) cnt
        ≡ done t)
      × IsValid t
      × (written_of t ≡ written_of s ++ bs)
      × ((chain_mut p q).remaining_mut t ≡ (chain_mut p q).remaining_mut s - cnt)

  -- The slice is that of `a`.
  into_a :
      (s : Chain S T) (bs : List ℕ) (cnt : ℕ)
      → IsValid s
      → length bs ≡ cnt
      → has_remaining_mut p s.a ≡ true
      → cnt ≤ (p.chunk_mut s.a).0
      → Advances s bs cnt
  unfolding advance_mut
  into_a s bs cnt (va, vb, room, inl full) e more h = absurd (ground arith)
  into_a s bs cnt (va, vb, room, inr fresh) e more h =
      let (a, r, va', wa, ra) = l.advance_mut-done s.a bs cnt va e h in
      let same = l.chunk_mut-remaining_mut s.a va in
      let same' = l.fill-remaining_mut s.a bs va (omega arith) in
      let le = l.chunk_mut-le s.a va in
      let more' : has_remaining_mut p (p.chunk_mut s.a).1 ≡ true = ap (ltb 0) same ∙ more in
      let some_left : not (p.remaining_mut (p.fill (p.chunk_mut s.a).1 bs) == 0) ≡ true =
        ground arith in
      let fits : leb cnt (p.remaining_mut (p.fill (p.chunk_mut s.a).1 bs)) ≡ true = ground arith in
      let w : l.written a ++ m.written s.b ≡ written_of s ++ bs =
        ap (λ k. l.written a ++ k) fresh
        ∙ append-nil (l.written a)
        ∙ wa
        ∙ ap (λ k. k ++ bs)
            (sym (ap (λ k. l.written s.a ++ k) fresh ∙ append-nil (l.written s.a))) in
      (
        record { a = a; b = s.b },
        rw more (rw more' (rw (some_left, fits, r))),
        (va', vb, omega arith, inr fresh),
        w,
        omega arith,
      )

  -- `a` is full, and the slice is that of `b`.
  into_b :
      (s : Chain S T) (bs : List ℕ) (cnt : ℕ)
      → IsValid s
      → length bs ≡ cnt
      → has_remaining_mut p s.a ≡ false
      → cnt ≤ (q.chunk_mut s.b).0
      → Advances s bs cnt
  unfolding advance_mut
  into_b s bs cnt (va, vb, room, _) e over h =
      let (b, r, vb', wb, rb) = m.advance_mut-done s.b bs cnt vb e h in
      let le = m.chunk_mut-le s.b vb in
      let none_left : not (p.remaining_mut s.a == 0) ≡ false = ground arith in
      let w : l.written s.a ++ m.written b ≡ written_of s ++ bs =
        ap (λ k. l.written s.a ++ k) wb ∙ sym (append_assoc (l.written s.a) (m.written s.b) bs) in
      (
        record { a = s.a; b = b },
        rw over (rw over (rw (none_left, r))),
        (va, vb', omega arith, inl (ground arith)),
        w,
        ground arith,
      )

  abbrev room_of : Chain S T → ℕ
  room_of s = (chain_mut p q).remaining_mut s

  pub chain_chunk_mut :
      (s : Chain S T)
      → IsValid s
      → ((chain_mut p q).chunk_mut s).0 ≤ (chain_mut p q).remaining_mut s
        × (0 < (chain_mut p q).remaining_mut s → 0 < ((chain_mut p q).chunk_mut s).0)
        × ((chain_mut p q).remaining_mut ((chain_mut p q).chunk_mut s).1
            ≡ (chain_mut p q).remaining_mut s)
  chain_chunk_mut s (va, vb, room, _) = elim (Bool-cases (has_remaining_mut p s.a)) [
    | inl more ↦
        let pos = l.chunk_mut-pos s.a va (ground arith) in
        let le = l.chunk_mut-le s.a va in
        let same = l.chunk_mut-remaining_mut s.a va in
        rw more (omega arith, (λ h. pos), omega arith)
    | inr over ↦
        let le = m.chunk_mut-le s.b vb in
        let same = m.chunk_mut-remaining_mut s.b vb in
        rw over (omega arith, (λ h. m.chunk_mut-pos s.b vb (ground arith)), omega arith)
  ]

  pub chain_fill :
      (s : Chain S T) (bs : List ℕ)
      → IsValid s
      → length bs ≤ ((chain_mut p q).chunk_mut s).0
      → (chain_mut p q).remaining_mut ((chain_mut p q).fill ((chain_mut p q).chunk_mut s).1 bs)
        ≡ (chain_mut p q).remaining_mut s
  chain_fill s bs (va, vb, room, _) = elim (Bool-cases (has_remaining_mut p s.a)) [
    | inl more ↦
        let same = l.chunk_mut-remaining_mut s.a va in
        let more' : has_remaining_mut p (p.chunk_mut s.a).1 ≡ true = ap (ltb 0) same ∙ more in
        rw more (rw more' (λ h. omega (arith, l.fill-remaining_mut s.a bs va h)))
    | inr over ↦ rw over (rw over (λ h. omega (arith, m.fill-remaining_mut s.b bs vb h)))
  ]

  -- In a valid state of a `Chain` of two lawful writers, what is written to the front of the slice
  -- of `chunk_mut` and advanced over, at most its length, is added after the bytes written to
  -- both; the state stays valid, and the room is less by that length.
  pub chain_advance_mut :
      (s : Chain S T) (bs : List ℕ) (cnt : ℕ)
      → IsValid s
      → length bs ≡ cnt
      → cnt ≤ ((chain_mut p q).chunk_mut s).0
      → Advances s bs cnt
  chain_advance_mut s bs cnt v e h = elim (Bool-cases (has_remaining_mut p s.a)) [
    | inl more ↦
        let same : ((chain_mut p q).chunk_mut s).0 ≡ (p.chunk_mut s.a).0 = rw more in
        into_a s bs cnt v e more (omega arith)
    | inr over ↦
        let same : ((chain_mut p q).chunk_mut s).0 ≡ (q.chunk_mut s.b).0 = rw over in
        into_b s bs cnt v e over (omega arith)
  ]

  -- A `Chain` of lawful buffers, the second one fresh, is a lawful buffer with the room of both.
  abbrev pub chain_LawfulMut : LawfulMut (chain_mut p q)
  chain_LawfulMut = record {
    IsValid = IsValid;
    written = written_of;
    chunk_mut-pos = λ s v. (chain_chunk_mut s v).1;
    chunk_mut-le = λ s v. (chain_chunk_mut s v).0;
    chunk_mut-remaining_mut = λ s v. (chain_chunk_mut s v).2;
    fill-remaining_mut = chain_fill;
    advance_mut-done = chain_advance_mut;
  }
