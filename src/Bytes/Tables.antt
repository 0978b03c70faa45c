-- ===== src/Bytes/Tables.antt =====
-- The functions of the tables of bytes/src/bytes.rs and of the table at the end of
-- bytes/src/bytes_mut.rs: one for each entry, with a case for each table. What the drop of an owner
-- does is open.
use chiya.Prelude.{
  ℕ, ◌+◌, ◌-◌, ◌%◌, Bool, true, false, length, ◌==◌, leb, if◌then◌else◌, some, none,
}
use chiya.Memory.{
  Ptr, shared, shared_v, owned, Eff, pure, undefined, ◌>>=◌, ◌>>◌, assert, require, new_cell,
  cell_at, set_cell, dealloc,
}
use chiya.BufMut.Vec.{isize_max}
use chiya.BytesMut
use chiya.Bytes.{
  Bytes, static_vtable, owned_vtable, promotable_even_vtable, promotable_odd_vtable, shared_vtable,
  shared_v_vtable, Data, boxed, masked, kind_arc, kind_vec, buffer_of, box_of, slice_at,
  from_static,
}

-- `offset_from`, for pointers into one allocation.
unfoldable pub offset_from : Ptr → ℕ → Eff ℕ
offset_from ptr block = do require (ptr.block == block); pure ptr.offset

unfoldable pub shared_at : ℕ → Eff (ℕ × ℕ × ℕ)
shared_at a = cell_at a >>= λ c. elim c [
  | shared buf cap ref_cnt ↦ pure (buf, cap, ref_cnt)
  | shared_v _ _ _ ↦ (λ m. undefined)
  | owned _ ↦ (λ m. undefined)
]

unfoldable pub owned_at : ℕ → Eff ℕ
owned_at a = cell_at a >>= λ c. elim c [
  | shared _ _ _ ↦ (λ m. undefined)
  | shared_v _ _ _ ↦ (λ m. undefined)
  | owned ref_cnt ↦ pure ref_cnt
]

unfoldable pub release_shared : ℕ → Eff (Unit {0})
release_shared a = shared_at a >>= λ s.
    if s.2 == 1
    then (do set_cell a none; dealloc s.0 s.1)
    else set_cell a (some (shared s.0 s.1 (s.2 - 1)))

-- The count is read, and not written.
unfoldable pub shallow_clone_arc : ℕ → Ptr → ℕ → Eff Bytes
shallow_clone_arc a ptr len = do
  (buf, cap, old_size) ← shared_at a
  assert (leb old_size isize_max)
  pure (record { ptr = ptr; len = len; data_ptr = boxed a; vtable = shared_vtable })

-- The box, which no other thread has put in place, and the copy.
unfoldable pub shallow_clone_vec : ℕ → Ptr → ℕ → Eff (Data × Bytes)
shallow_clone_vec buf offset len = do
  before ← offset_from offset buf
  a ← new_cell (shared buf (before + len) 2)
  assert (a % 2 == 0)
  pure (boxed a, record { ptr = offset; len = len; data_ptr = boxed a; vtable = shared_vtable })

unfoldable pub free_boxed_slice : ℕ → Ptr → ℕ → Eff (Unit {0})
free_boxed_slice buf offset len = do before ← offset_from offset buf; dealloc buf (before + len)

-- What the handle points to afterwards, and the copy.
unfoldable pub promotable_clone : Data → Ptr → ℕ → Eff (Data × Bytes)
promotable_clone data_ptr ptr len =
    if masked data_ptr == kind_arc
    then (do a ← box_of data_ptr; copy ← shallow_clone_arc a ptr len; pure (data_ptr, copy))
    else (do
      assert (masked data_ptr == kind_vec)
      buf ← buffer_of data_ptr
      shallow_clone_vec buf ptr len)

unfoldable pub promotable_drop : Data → Ptr → ℕ → Eff (Unit {0})
promotable_drop data_ptr ptr len =
    if masked data_ptr == kind_arc then box_of data_ptr >>= release_shared else (do
      assert (masked data_ptr == kind_vec)
      buf ← buffer_of data_ptr
      free_boxed_slice buf ptr len)

unfoldable pub shared_is_unique : Data → Eff Bool
shared_is_unique data_ptr = do
  a ← box_of data_ptr
  (buf, cap, ref_cnt) ← shared_at a
  pure (ref_cnt == 1)

unfoldable pub promotable_is_unique : Data → Eff Bool
promotable_is_unique data_ptr =
    if masked data_ptr == kind_arc then shared_is_unique data_ptr else pure true

unfoldable pub owned_clone : ℕ → Ptr → ℕ → Eff Bytes
owned_clone a ptr len = do
  old_cnt ← owned_at a
  set_cell a (some (owned (old_cnt + 1)))
  assert (leb old_cnt isize_max)
  pure (record { ptr = ptr; len = len; data_ptr = boxed a; vtable = owned_vtable })

unfoldable pub shared_v_clone : ℕ → Ptr → ℕ → Eff Bytes
shared_v_clone a ptr len = do
  BytesMut.increment_shared a
  pure (record { ptr = ptr; len = len; data_ptr = boxed a; vtable = shared_v_vtable })

unfoldable pub shared_v_is_unique : Data → Eff Bool
shared_v_is_unique data_ptr = do
  a ← box_of data_ptr
  (vec, repr, ref_count) ← BytesMut.shared_at a
  pure (ref_count == 1)

unfoldable pub is_unique : Bytes → Eff Bool
is_unique self = elim self.vtable [
  | static_vtable ↦ pure false
  | owned_vtable ↦ pure false
  | promotable_even_vtable ↦ promotable_is_unique self.data_ptr
  | promotable_odd_vtable ↦ promotable_is_unique self.data_ptr
  | shared_vtable ↦ shared_is_unique self.data_ptr
  | shared_v_vtable ↦ shared_v_is_unique self.data_ptr
]

-- The handle, which may be promoted, and the copy.
unfoldable pub clone : Bytes → Eff (Bytes × Bytes)
clone self = elim self.vtable [
  | static_vtable ↦ (do
    bs ← slice_at self.ptr self.len
    pure (self, from_static self.ptr (length bs)))
  | owned_vtable ↦ (do
    a ← box_of self.data_ptr
    copy ← owned_clone a self.ptr self.len
    pure (self, copy))
  | promotable_even_vtable ↦ (do
    (data_ptr, copy) ← promotable_clone self.data_ptr self.ptr self.len
    pure (record self { data_ptr = data_ptr }, copy))
  | promotable_odd_vtable ↦ (do
    (data_ptr, copy) ← promotable_clone self.data_ptr self.ptr self.len
    pure (record self { data_ptr = data_ptr }, copy))
  | shared_vtable ↦ (do
    a ← box_of self.data_ptr
    copy ← shallow_clone_arc a self.ptr self.len
    pure (self, copy))
  | shared_v_vtable ↦ (do
    a ← box_of self.data_ptr
    copy ← shared_v_clone a self.ptr self.len
    pure (self, copy))
]

module _ (drop_owner : ℕ → Eff (Unit {0})) where
  -- The owner is dropped with its box.
  unfoldable pub owned_drop_impl : ℕ → Eff (Unit {0})
  owned_drop_impl a = owned_at a >>= λ old_cnt.
      if old_cnt == 1
      then (do drop_owner a; set_cell a none)
      else set_cell a (some (owned (old_cnt - 1)))

  -- The drop of a handle.
  unfoldable pub release : Bytes → Eff (Unit {0})
  release self = elim self.vtable [
    | static_vtable ↦ pure tt
    | owned_vtable ↦ box_of self.data_ptr >>= owned_drop_impl
    | promotable_even_vtable ↦ promotable_drop self.data_ptr self.ptr self.len
    | promotable_odd_vtable ↦ promotable_drop self.data_ptr self.ptr self.len
    | shared_vtable ↦ box_of self.data_ptr >>= release_shared
    | shared_v_vtable ↦ box_of self.data_ptr >>= BytesMut.release_shared
  ]
