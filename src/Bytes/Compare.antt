-- ===== src/Bytes/Compare.antt =====
-- Equality and order of `Bytes` and `BytesMut` with what they are compared to (bytes/src/bytes.rs and
-- bytes/src/bytes_mut.rs). A slice, a text or a vector is its bytes, and the type of that operand says
-- which implementation is called; `partial_cmp` is `Some` of the order.
pub mod Order
pub mod Slices
use chiya.Prelude.{ℕ, Bool, true, false, List, [], ◌∷◌, ◌==◌, ltb, ◌&&◌, if◌then◌else◌}
use chiya.Memory.{Eff, pure, ◌>>=◌}
use chiya.BytesMut
use chiya.BytesMut.{BytesMut}
use chiya.Bytes.{Bytes, as_slice}

-- `core::cmp::Ordering`
pub data Ordering : Type 0 where
  less : Ordering
  equal : Ordering
  greater : Ordering

abbrev pub reverse : Ordering → Ordering
reverse less = greater
reverse equal = equal
reverse greater = less

-- The comparisons of slices of the standard library: bytewise, then by the length.
pub eq_slice : List ℕ → List ℕ → Bool
eq_slice [] [] = true
eq_slice [] (y ∷ ys) = false
eq_slice (x ∷ xs) [] = false
eq_slice (x ∷ xs) (y ∷ ys) = x == y && eq_slice xs ys

pub cmp_slice : List ℕ → List ℕ → Ordering
cmp_slice [] [] = equal
cmp_slice [] (y ∷ ys) = less
cmp_slice (x ∷ xs) [] = greater
cmp_slice (x ∷ xs) (y ∷ ys) =
    let rest = cmp_slice xs ys in if ltb x y then less else (if ltb y x then greater else rest)

-- The type of the operand that is no handle.
pub data Kind : Type 0 where
  slice : Kind
  str : Kind
  vec : Kind
  string : Kind
  slice_ref : Kind
  str_ref : Kind

-- `PartialEq` and `Ord` for `Bytes`
pub eq : Bytes → Bytes → Eff Bool
eq self other = do xs ← as_slice self; ys ← as_slice other; pure (eq_slice xs ys)

pub cmp : Bytes → Bytes → Eff Ordering
cmp self other = do xs ← as_slice self; ys ← as_slice other; pure (cmp_slice xs ys)

-- `PartialEq<..> for Bytes`: a vector is compared as a slice and a `String` as a `str`, and a
-- reference is followed.
pub bytes_eq_slice : Bytes → List ℕ → Eff Bool
bytes_eq_slice self other = do xs ← as_slice self; pure (eq_slice xs other)

pub bytes_eq_str : Bytes → List ℕ → Eff Bool
bytes_eq_str self other = do xs ← as_slice self; pure (eq_slice xs other)

pub bytes_eq : Kind → Bytes → List ℕ → Eff Bool
bytes_eq slice self other = bytes_eq_slice self other
bytes_eq str self other = bytes_eq_str self other
bytes_eq vec self other = bytes_eq_slice self other
bytes_eq string self other = bytes_eq_str self other
bytes_eq slice_ref self other = bytes_eq_slice self other
bytes_eq str_ref self other = bytes_eq_str self other

-- `PartialEq<Bytes> for ..`
pub eq_bytes : Kind → List ℕ → Bytes → Eff Bool
eq_bytes k self other = bytes_eq k other self

-- `PartialOrd<..> for Bytes`
pub bytes_cmp_slice : Bytes → List ℕ → Eff Ordering
bytes_cmp_slice self other = do xs ← as_slice self; pure (cmp_slice xs other)

pub bytes_cmp_str : Bytes → List ℕ → Eff Ordering
bytes_cmp_str self other = do xs ← as_slice self; pure (cmp_slice xs other)

pub bytes_cmp : Kind → Bytes → List ℕ → Eff Ordering
bytes_cmp slice self other = bytes_cmp_slice self other
bytes_cmp str self other = bytes_cmp_str self other
bytes_cmp vec self other = do xs ← as_slice self; pure (cmp_slice xs other)
bytes_cmp string self other = do xs ← as_slice self; pure (cmp_slice xs other)
bytes_cmp slice_ref self other = bytes_cmp_slice self other
bytes_cmp str_ref self other = bytes_cmp_str self other

-- `PartialOrd<Bytes> for ..`
pub cmp_bytes : Kind → List ℕ → Bytes → Eff Ordering
cmp_bytes slice self other = do ys ← as_slice other; pure (cmp_slice self ys)
cmp_bytes str self other = do ys ← as_slice other; pure (cmp_slice self ys)
cmp_bytes vec self other = do ys ← as_slice other; pure (cmp_slice self ys)
cmp_bytes string self other = do ys ← as_slice other; pure (cmp_slice self ys)
cmp_bytes slice_ref self other = do ys ← as_slice other; pure (cmp_slice self ys)
cmp_bytes str_ref self other = do ys ← as_slice other; pure (cmp_slice self ys)

-- `PartialEq` and `Ord` for `BytesMut`
pub eq_mut : BytesMut → BytesMut → Eff Bool
eq_mut self other = do
  xs ← BytesMut.as_slice self
  ys ← BytesMut.as_slice other
  pure (eq_slice xs ys)

pub cmp_mut : BytesMut → BytesMut → Eff Ordering
cmp_mut self other = do
  xs ← BytesMut.as_slice self
  ys ← BytesMut.as_slice other
  pure (cmp_slice xs ys)

-- `PartialEq<..> for BytesMut`
pub bytes_mut_eq_slice : BytesMut → List ℕ → Eff Bool
bytes_mut_eq_slice self other = do xs ← BytesMut.as_slice self; pure (eq_slice xs other)

pub bytes_mut_eq_str : BytesMut → List ℕ → Eff Bool
bytes_mut_eq_str self other = do xs ← BytesMut.as_slice self; pure (eq_slice xs other)

pub bytes_mut_eq : Kind → BytesMut → List ℕ → Eff Bool
bytes_mut_eq slice self other = bytes_mut_eq_slice self other
bytes_mut_eq str self other = bytes_mut_eq_str self other
bytes_mut_eq vec self other = bytes_mut_eq_slice self other
bytes_mut_eq string self other = bytes_mut_eq_str self other
bytes_mut_eq slice_ref self other = bytes_mut_eq_slice self other
bytes_mut_eq str_ref self other = bytes_mut_eq_str self other

-- `PartialEq<BytesMut> for ..`
pub eq_bytes_mut : Kind → List ℕ → BytesMut → Eff Bool
eq_bytes_mut k self other = bytes_mut_eq k other self

-- `PartialOrd<..> for BytesMut`
pub bytes_mut_cmp_slice : BytesMut → List ℕ → Eff Ordering
bytes_mut_cmp_slice self other = do xs ← BytesMut.as_slice self; pure (cmp_slice xs other)

pub bytes_mut_cmp_str : BytesMut → List ℕ → Eff Ordering
bytes_mut_cmp_str self other = do xs ← BytesMut.as_slice self; pure (cmp_slice xs other)

pub bytes_mut_cmp : Kind → BytesMut → List ℕ → Eff Ordering
bytes_mut_cmp slice self other = bytes_mut_cmp_slice self other
bytes_mut_cmp str self other = bytes_mut_cmp_str self other
bytes_mut_cmp vec self other = do xs ← BytesMut.as_slice self; pure (cmp_slice xs other)
bytes_mut_cmp string self other = do xs ← BytesMut.as_slice self; pure (cmp_slice xs other)
bytes_mut_cmp slice_ref self other = bytes_mut_cmp_slice self other
bytes_mut_cmp str_ref self other = bytes_mut_cmp_str self other

-- `PartialOrd<BytesMut> for ..`: a vector and a string reference ask the other operand.
pub cmp_bytes_mut : Kind → List ℕ → BytesMut → Eff Ordering
cmp_bytes_mut slice self other = do ys ← BytesMut.as_slice other; pure (cmp_slice self ys)
cmp_bytes_mut str self other = do ys ← BytesMut.as_slice other; pure (cmp_slice self ys)
cmp_bytes_mut vec self other = bytes_mut_cmp vec other self
cmp_bytes_mut string self other = do ys ← BytesMut.as_slice other; pure (cmp_slice self ys)
cmp_bytes_mut slice_ref self other = do ys ← BytesMut.as_slice other; pure (cmp_slice self ys)
cmp_bytes_mut str_ref self other = bytes_mut_cmp str_ref other self

-- `PartialEq<BytesMut> for Bytes` and `PartialEq<Bytes> for BytesMut`
pub bytes_eq_bytes_mut : Bytes → BytesMut → Eff Bool
bytes_eq_bytes_mut self other = do
  ys ← BytesMut.as_slice other
  xs ← as_slice self
  pure (eq_slice ys xs)

pub bytes_mut_eq_bytes : BytesMut → Bytes → Eff Bool
bytes_mut_eq_bytes self other = do
  ys ← as_slice other
  xs ← BytesMut.as_slice self
  pure (eq_slice ys xs)
