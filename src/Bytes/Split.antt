-- ===== src/Bytes/Split.antt =====
-- The parts of a `Bytes` (bytes/src/bytes.rs): `slice`, `slice_ref`, `split_off`, `split_to` and
-- `truncate`.
use chiya.Prelude.{ℕ, ◌+◌, ◌-◌, ◌^◌, Bool, true, false, ◌==◌, leb, ltb, if◌then◌else◌}
use chiya.Memory.{Ptr, add, Eff, pure, ◌>>=◌, ◌>>◌, assert}
use chiya.Bytes.{
  Bytes, Vtable, static_vtable, owned_vtable, promotable_even_vtable, promotable_odd_vtable,
  shared_vtable, shared_v_vtable, new, new_empty_with_ptr, inc_start,
}
use chiya.Bytes.Tables.{clone, release}

-- `core::ops::Bound`
pub data Bound : Type 0 where
  included : ℕ → Bound
  excluded : ℕ → Bound
  unbounded : Bound

-- `n.checked_add(1).expect(..)`
unfoldable pub next : ℕ → Eff ℕ
next n = do assert (leb (n + 1) (2 ^ 64 - 1)); pure (n + 1)

unfoldable pub begin_of : Bound → Eff ℕ
begin_of (included n) = pure n
begin_of (excluded n) = next n
begin_of unbounded = pure 0

unfoldable pub end_of : Bound → ℕ → Eff ℕ
end_of (included n) len = next n
end_of (excluded n) len = pure n
end_of unbounded len = pure len

-- The handle, which may be promoted, and the slice.
unfoldable pub slice : Bytes → Bound → Bound → Eff (Bytes × Bytes)
slice self start_bound end_bound = do
  begin ← begin_of start_bound
  end ← end_of end_bound self.len
  assert (leb begin end)
  assert (leb end self.len)
  if end == begin then pure (self, new) else (do
    (self', ret) ← clone self
    pure (self', record ret { len = end - begin; ptr = add ret.ptr begin }))

-- The handle, and the half from `at` on.
unfoldable pub split_off : Bytes → ℕ → Eff (Bytes × Bytes)
split_off self at =
    if at == self.len
    then pure (self, new_empty_with_ptr (add self.ptr at))
    else (if at == 0 then pure (new_empty_with_ptr self.ptr, self) else (do
      assert (leb at self.len)
      (self', ret) ← clone self
      rest ← inc_start ret at
      pure (record self' { len = at }, rest)))

-- The handle, and the half before `at`.
unfoldable pub split_to : Bytes → ℕ → Eff (Bytes × Bytes)
split_to self at =
    if at == self.len
    then pure (new_empty_with_ptr (add self.ptr at), self)
    else (if at == 0 then pure (self, new_empty_with_ptr self.ptr) else (do
      assert (leb at self.len)
      (self', ret) ← clone self
      rest ← inc_start self' at
      pure (rest, record ret { len = at })))

-- Whether the table is one of the promotable ones.
unfoldable pub is_promotable : Vtable → Bool
is_promotable static_vtable = false
is_promotable owned_vtable = false
is_promotable promotable_even_vtable = true
is_promotable promotable_odd_vtable = true
is_promotable shared_vtable = false
is_promotable shared_v_vtable = false

module _ (drop_owner : ℕ → Eff (Unit {0})) where
  unfoldable pub truncate : Bytes → ℕ → Eff Bytes
  truncate self len =
      if ltb len self.len
      then (if is_promotable self.vtable
          then (do (self', rest) ← split_off self len; release drop_owner rest; pure self')
          else pure (record self { len = len }))
      else pure self

  unfoldable pub clear : Bytes → Eff Bytes
  clear self = truncate self 0

module _ (base : ℕ → ℕ) where
  -- The address of a pointer, where `base` says at which address a block starts.
  unfoldable pub address_of : Ptr → ℕ
  address_of p = base p.block + p.offset

  -- The pointers are compared, then subtracted; a subtraction that would be negative panics.
  unfoldable pub slice_ref : Bytes → Ptr → ℕ → Eff (Bytes × Bytes)
  slice_ref self subset_ptr subset_len = if subset_len == 0 then pure (self, new) else (do
    assert (leb (address_of subset_ptr) (address_of self.ptr))
    assert (leb (address_of subset_ptr + subset_len) (address_of self.ptr + self.len))
    assert (leb (address_of self.ptr) (address_of subset_ptr))
    let subset_offset = address_of subset_ptr - address_of self.ptr
    slice self (included subset_offset) (excluded (subset_offset + subset_len)))
