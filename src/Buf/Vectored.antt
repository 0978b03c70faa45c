-- ===== src/Buf/Vectored.antt =====
-- `chunks_vectored` of bytes/src/buf/buf_impl.rs and bytes/src/buf/chain.rs. An `IoSlice` is the
-- bytes that it shows.
use chiya.Prelude.{
  ℕ, suc, ◌+◌, ◌<◌, ◌≡◌, ◌⊎◌, ap, true, List, [], ◌∷◌, ◌++◌, length, take, drop, leb, if◌then◌else◌,
  arith, Bool-cases, inl, inr,
}
use chiya.Prelude.Looping.{Run, done, ◌>>=◌, ◌>>◌, assert}
use chiya.Buf.{Buf}
use chiya.Buf.Chain.{Chain}
use chiya.Buf.Read.{has_remaining}

-- The method of the trait: the number of slices set, and the slices.
pub chunks_vectored : {S : Type 0} → Buf S → S → List (List ℕ) → Run (ℕ × List (List ℕ))
chunks_vectored b s [] = done (0, [])
chunks_vectored b s (d ∷ dst) =
    if has_remaining b s then done (1, b.chunk s ∷ dst) else done (0, d ∷ dst)

-- The override of `Chain`, where the methods of `a` and of `b` are `f` and `g`: `&mut dst[..n]`
-- panics where `dst` is shorter.
abbrev pub chain_vectored :
    (List (List ℕ) → Run (ℕ × List (List ℕ)))
    → (List (List ℕ) → Run (ℕ × List (List ℕ)))
    → List (List ℕ)
    → Run (ℕ × List (List ℕ))
chain_vectored f g dst = do
  (n, set_a) ← f dst
  assert (leb n (length set_a))
  (k, set_b) ← g (take n set_a)
  done (n + k, set_b ++ drop n set_a)

-- What `Chain` does over two readers that have the `chunks_vectored` of the trait, where `dst` has
-- a slice: with bytes in both it says 2 and has set the first slice only, to the chunk of `b`;
-- with bytes in `a` alone it says 1 and has set the first slice to the chunk of `a`; with none in
-- `a` it says 0 and sets nothing.
pub chain_vectored-cases :
    {S T : Type 0} (p : Buf S) (q : Buf T) (s : Chain S T) (d : List ℕ) (dst : List (List ℕ))
    → let run = chain_vectored (chunks_vectored p s.a) (chunks_vectored q s.b) (d ∷ dst) in
      ((0 < p.remaining s.a) × (0 < q.remaining s.b) × (run ≡ done (2, q.chunk s.b ∷ dst)))
      ⊎ ((0 < p.remaining s.a) × (q.remaining s.b ≡ 0) × (run ≡ done (1, p.chunk s.a ∷ dst)))
      ⊎ ((p.remaining s.a ≡ 0) × (run ≡ done (0, d ∷ dst)))
unfolding chunks_vectored
chain_vectored-cases p q s d dst =
    let fits : leb 1 (suc (length dst)) ≡ true = ground arith in
    let none_set : leb 0 (suc (length dst)) ≡ true = ground arith in
    elim (Bool-cases (has_remaining p s.a)) [
      | inl more ↦ elim (Bool-cases (has_remaining q s.b)) [
        | inl more' ↦ inl (ground arith, ground arith, rw (more, fits, more'))
        | inr over' ↦ inr (inl (ground arith, ground arith, rw (more, fits, over')))
      ]
      | inr over ↦
          inr (inr (ground arith, rw over (ap (λ k. assert k >> done (0, d ∷ dst)) none_set)))
    ]
