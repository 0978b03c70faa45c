-- ===== src/BytesMut.antt =====
-- `BytesMut` of bytes/src/bytes_mut.rs: the handle, its tagged word, splitting and joining. A debug
-- assertion is an assertion. In the word the bits of `|` do not overlap, so it is a sum.
pub mod Grow
pub mod Valid
pub mod Clone
pub mod Split
pub mod Release
pub mod Unsplit
pub mod Room
pub mod Reserve
pub mod Fill
pub mod Extend
pub mod Endless
pub mod IntoVec
mod Tests
use chiya.Prelude.{
  ℕ, zero, suc, ◌+◌, ◌-◌, ◌*◌, ◌/◌, ◌%◌, ◌^◌, Bool, true, false, List, length, min, leb, ltb, ◌==◌,
  ◌&&◌, ◌||◌, if◌then◌else◌, Option, none, some,
}
use chiya.Memory.{
  Ptr, add, eq_ptr, VecU8, Cell, shared, shared_v, owned, Memory, Eff, pure, undefined, ◌>>=◌, ◌>>◌,
  assert, require, read, new_cell, cell_at, set_cell,
}
use chiya.Memory.Vec.{vec_of, free_vec}
use chiya.BufMut.Vec.{isize_max}

pub record BytesMut : Type 0 where
  pub ptr : Ptr
  pub len : ℕ
  pub cap : ℕ
  pub word : ℕ

abbrev pub kind_arc : ℕ
kind_arc = 0

abbrev pub kind_vec : ℕ
kind_vec = 1

abbrev pub min_original_capacity_width : ℕ
min_original_capacity_width = 10

abbrev pub max_original_capacity_width : ℕ
max_original_capacity_width = 17

abbrev pub max_vec_pos : ℕ
max_vec_pos = 2 ^ 59 - 1

-- `64 - leading_zeros`: how many binary digits a word has.
unfoldable pub bit_width : ℕ → ℕ → ℕ
bit_width zero x = 0
bit_width (suc fuel) x = let rest = bit_width fuel (x / 2) in if x == 0 then 0 else rest + 1

unfoldable pub original_capacity_to_repr : ℕ → ℕ
original_capacity_to_repr cap =
    min (bit_width 64 (cap / 2 ^ min_original_capacity_width))
      (max_original_capacity_width - min_original_capacity_width)

pub original_capacity_from_repr : ℕ → ℕ
original_capacity_from_repr repr =
    if repr == 0 then 0 else 2 ^ (repr + (min_original_capacity_width - 1))

-- `self.data as usize & KIND_MASK`
abbrev pub kind : BytesMut → ℕ
kind self = self.word % 2

abbrev pub get_vec_pos : BytesMut → ℕ
get_vec_pos self = self.word / 32

pub set_vec_pos : ℕ → BytesMut → Eff BytesMut
set_vec_pos pos self = do
  assert (kind self == kind_vec)
  assert (leb pos max_vec_pos)
  pure (record self { word = pos * 32 + self.word % 32 })

-- `Vec::from_raw_parts` asks for the pointer of an allocation.
unfoldable pub rebuild_vec : Ptr → ℕ → ℕ → ℕ → Eff VecU8
rebuild_vec ptr len cap offset = do
  require (ptr.offset == offset)
  pure (record { buf = ptr.block; len = len + offset; cap = cap + offset })

unfoldable pub from_vec : VecU8 → BytesMut
from_vec vec = record {
  ptr = record { block = vec.buf; offset = 0 };
  len = vec.len;
  cap = vec.cap;
  word = original_capacity_to_repr vec.cap * 4 + kind_vec;
}

-- A box that is not a `Shared` of this module is no pointer of a `BytesMut`.
unfoldable pub shared_at : ℕ → Eff (VecU8 × ℕ × ℕ)
shared_at a = cell_at a >>= λ c. elim c [
  | shared_v vec repr ref_count ↦ pure (vec, repr, ref_count)
  | shared _ _ _ ↦ (λ m. undefined)
  | owned _ ↦ (λ m. undefined)
]

pub increment_shared : ℕ → Eff (Unit {0})
increment_shared a = do
  (vec, repr, old_size) ← shared_at a
  set_cell a (some (shared_v vec repr (old_size + 1)))
  assert (leb old_size isize_max)

unfoldable pub release_shared : ℕ → Eff (Unit {0})
release_shared a = shared_at a >>= λ s.
    if s.2 == 1
    then (do set_cell a none; free_vec s.0)
    else set_cell a (some (shared_v s.0 s.1 (s.2 - 1)))

pub promote_to_shared : ℕ → BytesMut → Eff BytesMut
promote_to_shared ref_cnt self = do
  assert (kind self == kind_vec)
  assert (ref_cnt == 1 || ref_cnt == 2)
  let original_capacity_repr = self.word / 4 % 8
  let offset = self.word / 32
  vec ← rebuild_vec self.ptr self.len self.cap offset
  address ← new_cell (shared_v vec original_capacity_repr ref_cnt)
  assert (address % 2 == kind_arc)
  pure (record self { word = address })

-- The handle itself, which may be promoted, and the copy of it.
pub shallow_clone : BytesMut → Eff (BytesMut × BytesMut)
shallow_clone self =
    if kind self == kind_arc
    then (do increment_shared self.word; pure (self, self))
    else (do self' ← promote_to_shared 2 self; pure (self', self'))

-- The first step of `advance_unchecked`: where the bytes that are left out are noted.
pub note_offset : BytesMut → ℕ → Eff BytesMut
note_offset self count =
    if kind self == kind_vec
    then (let pos = get_vec_pos self + count in
        if leb pos max_vec_pos then set_vec_pos pos self else promote_to_shared 1 self)
    else pure self

pub advance_unchecked : BytesMut → ℕ → Eff BytesMut
advance_unchecked self count = if count == 0 then pure self else (do
  assert (leb count self.cap)
  noted ← note_offset self count
  pure (record noted {
    ptr = add noted.ptr count;
    len = noted.len - count;
    cap = noted.cap - count;
  }))

-- `self` and what is split off.
unfoldable pub split_off : BytesMut → ℕ → Eff (BytesMut × BytesMut)
split_off self at = do
  assert (leb at self.cap)
  (self', other) ← shallow_clone self
  other' ← advance_unchecked other at
  pure (record self' { cap = at; len = min self'.len at }, other')

-- `self` and the bytes before `at`.
unfoldable pub split_to : BytesMut → ℕ → Eff (BytesMut × BytesMut)
split_to self at = do
  assert (leb at self.len)
  (self', other) ← shallow_clone self
  self'' ← advance_unchecked self' at
  pure (self'', record other { cap = at; len = at })

unfoldable pub split : BytesMut → Eff (BytesMut × BytesMut)
split self = split_to self self.len

pub set_len : ℕ → BytesMut → Eff BytesMut
set_len len self = do assert (leb len self.cap); pure (record self { len = len })

pub truncate : ℕ → BytesMut → Eff BytesMut
truncate len self = if leb len self.len then set_len len self else pure self

unfoldable pub clear : BytesMut → Eff BytesMut
clear self = set_len 0 self

unfoldable pub as_slice : BytesMut → Eff (List ℕ)
as_slice self = read self.ptr self.len

-- `Buf::advance`
unfoldable pub advance : BytesMut → ℕ → Eff BytesMut
advance self cnt = do assert (leb cnt self.len); advance_unchecked self cnt

-- The drop of a handle.
unfoldable pub release : BytesMut → Eff (Unit {0})
release self =
    if kind self == kind_vec
    then (do vec ← rebuild_vec self.ptr self.len self.cap (get_vec_pos self); free_vec vec)
    else release_shared self.word

-- Whether `other` was joined; where not, the caller has it still. A joined handle is dropped.
pub try_unsplit : BytesMut → BytesMut → Eff (BytesMut × Bool)
try_unsplit self other =
    if other.cap == 0
    then (do release other; pure (self, true))
    else (if eq_ptr (add self.ptr self.len) other.ptr
          && kind self == kind_arc
          && kind other == kind_arc
          && self.word == other.word
        then (do
          release other
          pure (record self { len = self.len + other.len; cap = self.cap + other.cap }, true))
        else pure (self, false))
