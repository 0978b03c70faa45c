-- ===== src/Memory/Vec.antt =====
-- The calls of `Vec<u8>` of the standard library. How much more than what is needed it allocates is
-- open: `spare` says how much.
use chiya.Prelude.{ℕ, ◌+◌, ◌-◌, List, ◌++◌, length, take, replicate, leb, if◌then◌else◌, min}
use chiya.Memory.{VecU8, Eff, pure, ◌>>=◌, ◌>>◌, assert, alloc, block_at, dealloc}
use chiya.BufMut.Vec.{isize_max}

-- The capacity where `needed` bytes do not fit.
abbrev pub capacity_for : (ℕ → ℕ) → ℕ → ℕ
capacity_for spare needed = min (needed + spare needed) isize_max

module _ (spare : ℕ → ℕ) where
  -- `Vec::with_capacity` and `extend_from_slice`; it panics past `isize::MAX`.
  unfoldable pub vec_of : List ℕ → ℕ → Eff VecU8
  vec_of bs needed = do
    assert (leb needed isize_max)
    buf ← alloc (bs ++ replicate (capacity_for spare needed - length bs) 0)
    pure (record { buf = buf; len = length bs; cap = capacity_for spare needed })

  -- `Vec::reserve`: a new allocation keeps the first `len` bytes.
  unfoldable pub reserve : VecU8 → ℕ → Eff VecU8
  reserve v additional m =
      if leb additional (v.cap - v.len)
      then pure v m
      else (do
        assert (leb (v.len + additional) isize_max)
        old ← block_at v.buf
        grown ← vec_of (take v.len old) (v.len + additional)
        dealloc v.buf v.cap
        pure grown)
          m

-- The drop of a vector.
unfoldable pub free_vec : VecU8 → Eff (Unit {0})
free_vec v = dealloc v.buf v.cap
