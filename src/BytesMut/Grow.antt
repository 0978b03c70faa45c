-- ===== src/BytesMut/Grow.antt =====
-- The operations of `BytesMut` that need room (bytes/src/bytes_mut.rs). `spare` is what the standard
-- library allocates more than it must.
use chiya.Prelude.{
  ℕ, ◌+◌, ◌-◌, ◌*◌, ◌%◌, ◌^◌, List, [], length, replicate, leb, ltb, ◌==◌, ◌&&◌, not, Bool, true,
  false, if◌then◌else◌, max, some, none,
}
use chiya.Memory.{
  Ptr, add, VecU8, shared_v, Eff, pure, panic, ◌>>=◌, ◌>>◌, assert, read, write, set_cell,
}
use chiya.Memory.Vec.{vec_of, reserve}
use chiya.BytesMut.{
  BytesMut, kind, kind_vec, get_vec_pos, set_vec_pos, rebuild_vec, from_vec, shared_at,
  release_shared, original_capacity_from_repr, release, truncate, set_len, as_slice, try_unsplit,
}

module _ (spare : ℕ → ℕ) where
  -- `reserve_inner` on a vector: the bytes are moved to its front if there is room enough before
  -- them, or the vector grows.
  unfoldable pub reserve_vec : BytesMut → ℕ → Bool → Eff (BytesMut × Bool)
  reserve_vec self additional allocate =
      let offset = get_vec_pos self in
      if leb additional (self.cap - self.len + offset) && leb self.len offset
      then (do
        let base : Ptr = record { block = self.ptr.block; offset = self.ptr.offset - offset }
        bs ← read self.ptr self.len
        write base bs
        moved ← set_vec_pos 0 (record self { ptr = base })
        pure (record moved { cap = moved.cap + offset }, true))
      else (if not allocate then pure (self, false) else (do
        v ← rebuild_vec self.ptr self.len self.cap offset
        grown ← reserve spare v additional
        assert (self.len == grown.len - offset)
        pure (
          record self {
            ptr = record { block = grown.buf; offset = offset };
            cap = grown.cap - offset;
          },
          true,
        )))

  -- `reserve_inner` on a box with no other handle; the sum of the test overflows with a panic.
  unfoldable pub reserve_unique : BytesMut → ℕ → ℕ → Bool → VecU8 → ℕ → Eff (BytesMut × Bool)
  reserve_unique self additional new_cap allocate v repr =
      let offset = self.ptr.offset in
      assert (leb (new_cap + offset) (2 ^ 64 - 1))
      >> (if leb (new_cap + offset) v.cap
          then pure (record self { cap = new_cap }, true)
          else (if leb new_cap v.cap && leb self.len offset
              then (do
                bs ← read self.ptr self.len
                write (record { block = v.buf; offset = 0 }) bs
                pure
                    (record self { ptr = record { block = v.buf; offset = 0 }; cap = v.cap }, true))
              else (if not allocate then pure (self, false) else (do
                assert (leb (new_cap + offset) (2 ^ 64 - 1))
                let new_cap' = max (v.cap * 2 % 2 ^ 64) (new_cap + offset)
                assert (leb (offset + self.len) v.cap)
                grown ←
                    reserve spare (record v { len = offset + self.len })
                      (new_cap' - (offset + self.len))
                set_cell self.word (some (shared_v grown repr 1))
                pure (
                  record self {
                    ptr = record { block = grown.buf; offset = offset };
                    cap = grown.cap - offset;
                  },
                  true,
                )))))

  -- `reserve_inner` on a box with other handles: the bytes are copied to a vector of their own.
  unfoldable pub reserve_copy : BytesMut → ℕ → Bool → ℕ → Eff (BytesMut × Bool)
  reserve_copy self new_cap allocate repr = if not allocate then pure (self, false) else (do
    bs ← as_slice self
    v ← vec_of spare bs (max new_cap (original_capacity_from_repr repr))
    release_shared self.word
    assert (self.len == v.len)
    pure (
      record {
        ptr = record { block = v.buf; offset = 0 };
        len = self.len;
        cap = v.cap;
        word = repr * 4 + kind_vec;
      },
      true,
    ))

  unfoldable pub reserve_inner : BytesMut → ℕ → Bool → Eff (BytesMut × Bool)
  reserve_inner self additional allocate =
      if kind self == kind_vec
      then reserve_vec self additional allocate
      else (let new_cap = self.len + additional in
          if not (leb new_cap (2 ^ 64 - 1))
          then (if not allocate then pure (self, false) else (λ m. panic))
          else (do
            (v, repr, ref_count) ← shared_at self.word
            if ref_count == 1
                then reserve_unique self additional new_cap allocate v repr
                else reserve_copy self new_cap allocate repr))

  -- `reserve`
  unfoldable pub reserve_more : BytesMut → ℕ → Eff BytesMut
  reserve_more self additional =
      if leb additional (self.cap - self.len)
      then pure self
      else (reserve_inner self additional true >>= λ r. pure r.0)

  -- `reserve_inner` with `allocate`, as the code calls it.
  unfoldable pub try_reclaim : BytesMut → ℕ → Eff (BytesMut × Bool)
  try_reclaim self additional =
      if leb additional (self.cap - self.len)
      then pure (self, true)
      else reserve_inner self additional true

  -- `BufMut::advance_mut`
  unfoldable pub advance_mut : BytesMut → ℕ → Eff BytesMut
  advance_mut self cnt = do
    assert (leb cnt (self.cap - self.len))
    pure (record self { len = self.len + cnt })

  unfoldable pub extend_from_slice : BytesMut → List ℕ → Eff BytesMut
  extend_from_slice self extend = do
    roomy ← reserve_more self (length extend)
    assert (leb (length extend) (roomy.cap - roomy.len))
    write (add roomy.ptr roomy.len) extend
    advance_mut roomy (length extend)

  -- `BufMut::put_bytes`
  unfoldable pub put_bytes : BytesMut → ℕ → ℕ → Eff BytesMut
  put_bytes self val cnt = do
    roomy ← reserve_more self cnt
    assert (leb cnt (roomy.cap - roomy.len))
    write (add roomy.ptr roomy.len) (replicate cnt val)
    advance_mut roomy cnt

  unfoldable pub resize : BytesMut → ℕ → ℕ → Eff BytesMut
  resize self new_len value =
      if ltb new_len self.len
      then truncate new_len self
      else (let additional = new_len - self.len in
          if additional == 0 then pure self else (do
            roomy ← reserve_more self additional
            write (add roomy.ptr roomy.len) (replicate additional value)
            set_len new_len roomy))

  unfoldable pub unsplit : BytesMut → BytesMut → Eff BytesMut
  unsplit self other = if self.len == 0 then (do release self; pure other) else (do
    (joined, done) ← try_unsplit self other
    if done then pure joined else (do
      bs ← as_slice other
      extended ← extend_from_slice joined bs
      release other
      pure extended))

  -- `with_capacity`, `From<&[u8]>`, and the clone of a handle.
  unfoldable pub with_capacity : ℕ → Eff BytesMut
  with_capacity capacity = vec_of spare [] capacity >>= λ v. pure (from_vec v)

  unfoldable pub from_slice : List ℕ → Eff BytesMut
  from_slice value = vec_of spare value (length value) >>= λ v. pure (from_vec v)

  unfoldable pub clone : BytesMut → Eff BytesMut
  clone self = as_slice self >>= from_slice

  -- `zeroed`
  unfoldable pub zeroed : ℕ → Eff BytesMut
  zeroed len = vec_of spare (replicate len 0) len >>= λ v. pure (from_vec v)

  -- `BufMut::chunk_mut`: the handle, and where the room behind its bytes starts and how much it is.
  unfoldable pub chunk_mut : BytesMut → Eff (BytesMut × Ptr × ℕ)
  chunk_mut self =
      if self.cap == self.len
      then (do
        roomy ← reserve_more self 64
        pure (roomy, add roomy.ptr roomy.len, roomy.cap - roomy.len))
      else pure (self, add self.ptr self.len, self.cap - self.len)

  -- `From<BytesMut> for Vec<u8>`; a box that is emptied before its release frees no buffer.
  unfoldable pub move_to_front : BytesMut → VecU8 → Eff VecU8
  move_to_front self vec = do
    bs ← read self.ptr self.len
    write (record { block = vec.buf; offset = 0 }) bs
    pure (record vec { len = self.len })

  unfoldable pub into_vec : BytesMut → Eff VecU8
  into_vec self =
      if kind self == kind_vec
      then (rebuild_vec self.ptr self.len self.cap (get_vec_pos self) >>= move_to_front self)
      else (shared_at self.word >>= λ s.
          if s.2 == 1
          then (do set_cell self.word none; move_to_front self s.0)
          else (do bs ← as_slice self; v ← vec_of spare bs (length bs); release self; pure v))
