-- ===== src/BufMut/Limit.antt =====
-- `Limit` of bytes/src/buf/limit.rs.
use chiya.Prelude.{ℕ, ◌-◌, ◌≤◌, ◌≡◌, true, List, ◌++◌, length, min, leb, arith}
use chiya.Prelude.Looping.{Run, done, ◌>>=◌, ◌>>◌, assert}
use chiya.BufMut.{BufMut, LawfulMut}

pub record Limit (S : Type 0) : Type 0 where
  pub inner : S
  pub limit : ℕ

module _ {S : Type 0} (b : BufMut S) where
  unfoldable pub advance_mut : Limit S → ℕ → Run (Limit S)
  advance_mut self cnt = do
    assert (leb cnt self.limit)
    inner ← b.advance_mut self.inner cnt
    done (record { inner = inner; limit = self.limit - cnt })

  abbrev pub limit_mut : BufMut (Limit S)
  limit_mut = record {
    remaining_mut = λ self. min (b.remaining_mut self.inner) self.limit;
    chunk_mut = λ self. (
      min (b.chunk_mut self.inner).0 self.limit,
      record { inner = (b.chunk_mut self.inner).1; limit = self.limit },
    );
    fill = λ self bs. record { inner = b.fill self.inner bs; limit = self.limit };
    advance_mut = advance_mut;
  }

module _ {S : Type 0} (b : BufMut S) (m : LawfulMut b) where
  -- In a state of a `Limit` whose inner writer is valid, what is written to the front of the slice
  -- of `chunk_mut` and advanced over, at most its length, is added to the bytes written; the inner
  -- writer stays valid, and the room is less by that length.
  pub limit_advance_mut :
      (s : Limit S) (bs : List ℕ) (cnt : ℕ)
      → m.IsValid s.inner
      → length bs ≡ cnt
      → cnt ≤ min (b.chunk_mut s.inner).0 s.limit
      → (t : Limit S) × (advance_mut b
            (record { inner = b.fill (b.chunk_mut s.inner).1 bs; limit = s.limit })
            cnt
          ≡ done t)
        × m.IsValid t.inner
        × (m.written t.inner ≡ m.written s.inner ++ bs)
        × (min (b.remaining_mut t.inner) t.limit ≡ min (b.remaining_mut s.inner) s.limit - cnt)
  unfolding advance_mut
  limit_advance_mut s bs cnt v e h =
      let fits : leb cnt s.limit ≡ true = ground arith in
      let (t, r, vt, wt, rt) = m.advance_mut-done s.inner bs cnt v e (omega arith) in
      (record { inner = t; limit = s.limit - cnt }, rw (fits, r), vt, wt, omega arith)

  -- A `Limit` over a lawful buffer is a lawful buffer with room for `limit` bytes at most.
  abbrev pub limit_LawfulMut : LawfulMut (limit_mut b)
  limit_LawfulMut = record {
    IsValid = λ s. m.IsValid s.inner;
    written = λ s. m.written s.inner;
    chunk_mut-pos = λ s v h. omega (arith, m.chunk_mut-pos s.inner v (omega arith));
    chunk_mut-le = λ s v. omega (arith, m.chunk_mut-le s.inner v);
    chunk_mut-remaining_mut = λ s v. omega (arith, m.chunk_mut-remaining_mut s.inner v);
    fill-remaining_mut = λ s bs v h. omega (arith, m.fill-remaining_mut s.inner bs v (omega arith));
    advance_mut-done = limit_advance_mut;
  }
