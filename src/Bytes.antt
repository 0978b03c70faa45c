-- ===== src/Bytes.antt =====
-- `Bytes` of bytes/src/bytes.rs: a view of memory, with the table of functions that says how it is
-- copied and dropped, and the pointer that they work on. An abort is modelled as a panic.
pub mod Tables
pub mod Split
pub mod Convert
pub mod Views
pub mod Parts
pub mod Lifetime
pub mod Freeze
pub mod Copy
pub mod Compare
mod Tests
use chiya.Prelude.{
  ℕ, zero, ◌+◌, ◌-◌, ◌*◌, ◌%◌, ◌≡◌, Bool, true, false, List, [], ◌==◌, leb, if◌then◌else◌,
}
use chiya.Memory.{Ptr, add, Eff, pure, undefined, ◌>>=◌, ◌>>◌, assert, read}

-- The tables of functions: those of this file, and the `SHARED_VTABLE` of bytes/src/bytes_mut.rs.
pub data Vtable : Type 0 where
  static_vtable : Vtable
  owned_vtable : Vtable
  promotable_even_vtable : Vtable
  promotable_odd_vtable : Vtable
  shared_vtable : Vtable
  shared_v_vtable : Vtable

-- What the pointer `data` points to: nothing, a buffer (by its address, which may be tagged), or a
-- box.
pub data Data : Type 0 where
  null : Data
  buffer : (block word : ℕ) → Data
  boxed : (address : ℕ) → Data

pub record Bytes : Type 0 where
  pub ptr : Ptr
  pub len : ℕ
  pub data_ptr : Data
  pub vtable : Vtable

-- `self.data as usize`
abbrev pub address : Data → ℕ
address null = 0
address (buffer _ word) = word
address (boxed a) = a

abbrev pub kind_arc : ℕ
kind_arc = 0

abbrev pub kind_vec : ℕ
kind_vec = 1

abbrev pub kind_mask : ℕ
kind_mask = 1

-- `x & KIND_MASK`
abbrev pub masked : Data → ℕ
masked d = address d % (kind_mask + 1)

-- The block that a tagged pointer points to, and the address of the box.
abbrev pub buffer_of : Data → Eff ℕ
buffer_of null m = undefined
buffer_of (buffer b _) m = pure b m
buffer_of (boxed _) m = undefined

abbrev pub box_of : Data → Eff ℕ
box_of null m = undefined
box_of (buffer _ _) m = undefined
box_of (boxed a) m = pure a m

-- `slice::from_raw_parts`, which may have any pointer where it has no bytes.
pub slice_at : Ptr → ℕ → Eff (List ℕ)
slice_at ptr len = if len == 0 then pure [] else read ptr len

pub from_static : Ptr → ℕ → Bytes
from_static ptr len = record { ptr = ptr; len = len; data_ptr = null; vtable = static_vtable }

unfoldable pub new : Bytes
new = from_static (record { block = 0; offset = 0 }) 0

pub new_empty_with_ptr : Ptr → Bytes
new_empty_with_ptr ptr = record { ptr = ptr; len = 0; data_ptr = null; vtable = static_vtable }

abbrev pub is_empty : Bytes → Bool
is_empty self = self.len == 0

unfoldable pub as_slice : Bytes → Eff (List ℕ)
as_slice self = slice_at self.ptr self.len

pub inc_start : Bytes → ℕ → Eff Bytes
inc_start self by = do
  assert (leb by self.len)
  pure (record self { len = self.len - by; ptr = add self.ptr by })

-- `Buf::advance`
unfoldable pub advance : Bytes → ℕ → Eff Bytes
advance self cnt = do assert (leb cnt self.len); inc_start self cnt
