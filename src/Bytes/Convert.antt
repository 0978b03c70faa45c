-- ===== src/Bytes/Convert.antt =====
-- The ways between `Bytes`, `BytesMut` and `Vec<u8>` (bytes/src/bytes.rs and the table at the end of
-- bytes/src/bytes_mut.rs).
use chiya.Prelude.{ℕ, ◌+◌, ◌-◌, ◌*◌, ◌%◌, length, ◌==◌, if◌then◌else◌, none, ◌⊎◌, inl, inr}
use chiya.Memory.{
  Ptr, VecU8, shared, owned, Eff, pure, ◌>>=◌, ◌>>◌, assert, write, new_cell, set_cell,
}
use chiya.Memory.Vec.{vec_of}
use chiya.BytesMut
use chiya.BytesMut.{BytesMut, from_vec, advance_unchecked, rebuild_vec, get_vec_pos, kind}
use chiya.Bytes.{
  Bytes, static_vtable, owned_vtable, promotable_even_vtable, promotable_odd_vtable, shared_vtable,
  shared_v_vtable, Data, buffer, boxed, address, masked, kind_arc, kind_vec, kind_mask, buffer_of,
  box_of, slice_at, new, advance,
}
use chiya.Bytes.Tables.{offset_from, shared_at, release_shared, owned_drop_impl, is_unique}

-- `ptr::copy` from a view to the front of its buffer.
unfoldable pub copy_back : Ptr → ℕ → ℕ → Eff (Unit {0})
copy_back ptr buf len = slice_at ptr len >>= write (record { block = buf; offset = 0 })

module _ (spare : ℕ → ℕ) where
  -- `<[u8]>::to_vec`
  unfoldable pub slice_to_vec : Ptr → ℕ → Eff VecU8
  slice_to_vec ptr len = slice_at ptr len >>= λ bs. vec_of spare bs (length bs)

  unfoldable pub shared_to_vec_impl : ℕ → Ptr → ℕ → Eff VecU8
  shared_to_vec_impl a ptr len = shared_at a >>= λ s.
      if s.2 == 1
      then (do
        set_cell a none
        copy_back ptr s.0 len
        pure (record { buf = s.0; len = len; cap = s.1 }))
      else (do v ← slice_to_vec ptr len; release_shared a; pure v)

  unfoldable pub shared_to_mut_impl : ℕ → Ptr → ℕ → Eff BytesMut
  shared_to_mut_impl a ptr len = shared_at a >>= λ s.
      if s.2 == 1
      then (do
        set_cell a none
        offset ← offset_from ptr s.0
        advance_unchecked (from_vec (record { buf = s.0; len = len + offset; cap = s.1 })) offset)
      else (do v ← slice_to_vec ptr len; release_shared a; pure (from_vec v))

  unfoldable pub promotable_to_vec : Data → Ptr → ℕ → Eff VecU8
  promotable_to_vec data_ptr ptr len =
      if masked data_ptr == kind_arc
      then (box_of data_ptr >>= λ a. shared_to_vec_impl a ptr len)
      else (do
        assert (masked data_ptr == kind_arc)
        buf ← buffer_of data_ptr
        offset ← offset_from ptr buf
        copy_back ptr buf len
        pure (record { buf = buf; len = len; cap = offset + len }))

  -- The kind is the product of the address and the mask.
  unfoldable pub promotable_to_mut : Data → Ptr → ℕ → Eff BytesMut
  promotable_to_mut data_ptr ptr len =
      let kind = address data_ptr * kind_mask in
      if kind == kind_arc then (box_of data_ptr >>= λ a. shared_to_mut_impl a ptr len) else (do
        assert (kind == kind_vec)
        buf ← buffer_of data_ptr
        offset ← offset_from ptr buf
        advance_unchecked (from_vec (record { buf = buf; len = offset + len; cap = offset + len }))
            offset)

  -- A box that is emptied before its release frees no buffer.
  unfoldable pub shared_v_to_vec : ℕ → Ptr → ℕ → Eff VecU8
  shared_v_to_vec a ptr len = BytesMut.shared_at a >>= λ s.
      if s.2 == 1
      then (do set_cell a none; copy_back ptr s.0.buf len; pure (record s.0 { len = len }))
      else (do v ← slice_to_vec ptr len; BytesMut.release_shared a; pure v)

  unfoldable pub shared_v_to_mut : ℕ → Ptr → ℕ → Eff BytesMut
  shared_v_to_mut a ptr len = BytesMut.shared_at a >>= λ s.
      if s.2 == 1
      then (do
        offset ← offset_from ptr s.0.buf
        pure (record { ptr = ptr; len = len; cap = s.0.cap - offset; word = a }))
      else (do v ← slice_to_vec ptr len; BytesMut.release_shared a; pure (from_vec v))

  -- `From<Bytes> for Vec<u8>`
  unfoldable pub to_vec : Bytes → Eff VecU8
  to_vec self = elim self.vtable [
    | static_vtable ↦ slice_to_vec self.ptr self.len
    | owned_vtable ↦ slice_to_vec self.ptr self.len
    | promotable_even_vtable ↦ promotable_to_vec self.data_ptr self.ptr self.len
    | promotable_odd_vtable ↦ promotable_to_vec self.data_ptr self.ptr self.len
    | shared_vtable ↦ (box_of self.data_ptr >>= λ a. shared_to_vec_impl a self.ptr self.len)
    | shared_v_vtable ↦ (box_of self.data_ptr >>= λ a. shared_v_to_vec a self.ptr self.len)
  ]

  module _ (drop_owner : ℕ → Eff (Unit {0})) where
    unfoldable pub owned_to_mut : ℕ → Ptr → ℕ → Eff BytesMut
    owned_to_mut a ptr len = do
      v ← slice_to_vec ptr len
      owned_drop_impl drop_owner a
      pure (from_vec v)

    -- `From<Bytes> for BytesMut`
    unfoldable pub to_mut : Bytes → Eff BytesMut
    to_mut self = elim self.vtable [
      | static_vtable ↦ (slice_to_vec self.ptr self.len >>= λ v. pure (from_vec v))
      | owned_vtable ↦ (box_of self.data_ptr >>= λ a. owned_to_mut a self.ptr self.len)
      | promotable_even_vtable ↦ promotable_to_mut self.data_ptr self.ptr self.len
      | promotable_odd_vtable ↦ promotable_to_mut self.data_ptr self.ptr self.len
      | shared_vtable ↦ (box_of self.data_ptr >>= λ a. shared_to_mut_impl a self.ptr self.len)
      | shared_v_vtable ↦ (box_of self.data_ptr >>= λ a. shared_v_to_mut a self.ptr self.len)
    ]

    -- `Ok` is the `BytesMut`, and `Err` the handle itself.
    unfoldable pub try_into_mut : Bytes → Eff (BytesMut ⊎ Bytes)
    try_into_mut self = is_unique self >>= λ unique.
        if unique then (to_mut self >>= λ b. pure (inl b)) else pure (inr self)

-- `base` says at which address a block starts.
module _ (base : ℕ → ℕ) where
  -- `From<Box<[u8]>>`, of a block and its length
  unfoldable pub from_box : ℕ → ℕ → Bytes
  from_box buf len =
      if len == 0
      then new
      else (let ptr : Ptr = record { block = buf; offset = 0 } in
          if base buf % 2 == 0
          then record {
            ptr = ptr;
            len = len;
            data_ptr = buffer buf (base buf + kind_vec);
            vtable = promotable_even_vtable;
          }
          else record {
            ptr = ptr;
            len = len;
            data_ptr = buffer buf (base buf);
            vtable = promotable_odd_vtable;
          })

  -- `From<Vec<u8>>`
  unfoldable pub from_vec_u8 : VecU8 → Eff Bytes
  from_vec_u8 vec = if vec.len == vec.cap then pure (from_box vec.buf vec.len) else (do
    a ← new_cell (shared vec.buf vec.cap 1)
    assert (a % 2 == 0)
    pure (record {
      ptr = record { block = vec.buf; offset = 0 };
      len = vec.len;
      data_ptr = boxed a;
      vtable = shared_vtable;
    }))

  -- `BytesMut::freeze`
  unfoldable pub freeze : BytesMut → Eff Bytes
  freeze self =
      if kind self == kind_vec
      then (do
        vec ← rebuild_vec self.ptr self.len self.cap (get_vec_pos self)
        b ← from_vec_u8 vec
        advance b (get_vec_pos self))
      else (do
        assert (kind self == kind_arc)
        pure (record {
          ptr = self.ptr;
          len = self.len;
          data_ptr = boxed self.word;
          vtable = shared_v_vtable;
        }))

  -- `BytesMut::copy_to_bytes`
  unfoldable pub copy_to_bytes : BytesMut → ℕ → Eff (BytesMut × Bytes)
  copy_to_bytes self len = do
    (rest, front) ← BytesMut.split_to self len
    frozen ← freeze front
    pure (rest, frozen)

-- `from_owner`, of an owner whose `as_ref` gives the pointer and the length
unfoldable pub from_owner : Ptr → ℕ → Eff Bytes
from_owner ptr len = do
  a ← new_cell (owned 1)
  pure (record { ptr = ptr; len = len; data_ptr = boxed a; vtable = owned_vtable })
