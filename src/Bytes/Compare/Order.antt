-- ===== src/Bytes/Compare/Order.antt =====
-- The theorems on the equality and the order of bytes/src/bytes.rs and bytes/src/bytes_mut.rs.
use chiya.Prelude.{ℕ, ◌≡◌, ◌↔◌, Bool, true, false, List, if◌then◌else◌, refl, sym, ap}
use chiya.Memory.{Memory, ok}
use chiya.BytesMut
use chiya.BytesMut.{BytesMut}
use chiya.Bytes.{Bytes, as_slice}
use chiya.Bytes.Compare.Slices.{eq_slice_iff, cmp_slice-reverse, slice-equal_iff}
use chiya.Bytes.Compare.{
  reverse, eq_slice, cmp_slice, Kind, eq, cmp, eq_mut, cmp_mut, bytes_eq, eq_bytes, bytes_cmp,
  cmp_bytes, bytes_mut_eq, eq_bytes_mut, bytes_mut_cmp, cmp_bytes_mut, bytes_eq_bytes_mut,
  bytes_mut_eq_bytes, Ordering, equal, bytes_eq_slice, bytes_eq_str, bytes_cmp_slice, bytes_cmp_str,
  bytes_mut_eq_slice, bytes_mut_eq_str, bytes_mut_cmp_slice, bytes_mut_cmp_str, slice, str, vec,
  string, slice_ref, str_ref,
}

bytes_eq-shown :
    (k : Kind) (h : Bytes) (m : Memory) (xs ys : List ℕ)
    → as_slice h m ≡ ok xs m
    → bytes_eq k h ys m ≡ ok (eq_slice xs ys) m
unfolding bytes_eq bytes_eq_slice bytes_eq_str
bytes_eq-shown slice h m xs ys shows = rw shows refl
bytes_eq-shown str h m xs ys shows = rw shows refl
bytes_eq-shown vec h m xs ys shows = rw shows refl
bytes_eq-shown string h m xs ys shows = rw shows refl
bytes_eq-shown slice_ref h m xs ys shows = rw shows refl
bytes_eq-shown str_ref h m xs ys shows = rw shows refl

bytes_cmp-shown :
    (k : Kind) (h : Bytes) (m : Memory) (xs ys : List ℕ)
    → as_slice h m ≡ ok xs m
    → bytes_cmp k h ys m ≡ ok (cmp_slice xs ys) m
unfolding bytes_cmp bytes_cmp_slice bytes_cmp_str
bytes_cmp-shown slice h m xs ys shows = rw shows refl
bytes_cmp-shown str h m xs ys shows = rw shows refl
bytes_cmp-shown vec h m xs ys shows = rw shows refl
bytes_cmp-shown string h m xs ys shows = rw shows refl
bytes_cmp-shown slice_ref h m xs ys shows = rw shows refl
bytes_cmp-shown str_ref h m xs ys shows = rw shows refl

cmp_bytes-shown :
    (k : Kind) (h : Bytes) (m : Memory) (xs ys : List ℕ)
    → as_slice h m ≡ ok xs m
    → cmp_bytes k ys h m ≡ ok (cmp_slice ys xs) m
unfolding cmp_bytes
cmp_bytes-shown slice h m xs ys shows = rw shows refl
cmp_bytes-shown str h m xs ys shows = rw shows refl
cmp_bytes-shown vec h m xs ys shows = rw shows refl
cmp_bytes-shown string h m xs ys shows = rw shows refl
cmp_bytes-shown slice_ref h m xs ys shows = rw shows refl
cmp_bytes-shown str_ref h m xs ys shows = rw shows refl

bytes_mut_eq-shown :
    (k : Kind) (h : BytesMut) (m : Memory) (xs ys : List ℕ)
    → BytesMut.as_slice h m ≡ ok xs m
    → bytes_mut_eq k h ys m ≡ ok (eq_slice xs ys) m
unfolding bytes_mut_eq bytes_mut_eq_slice bytes_mut_eq_str
bytes_mut_eq-shown slice h m xs ys shows = rw shows refl
bytes_mut_eq-shown str h m xs ys shows = rw shows refl
bytes_mut_eq-shown vec h m xs ys shows = rw shows refl
bytes_mut_eq-shown string h m xs ys shows = rw shows refl
bytes_mut_eq-shown slice_ref h m xs ys shows = rw shows refl
bytes_mut_eq-shown str_ref h m xs ys shows = rw shows refl

bytes_mut_cmp-shown :
    (k : Kind) (h : BytesMut) (m : Memory) (xs ys : List ℕ)
    → BytesMut.as_slice h m ≡ ok xs m
    → bytes_mut_cmp k h ys m ≡ ok (cmp_slice xs ys) m
unfolding bytes_mut_cmp bytes_mut_cmp_slice bytes_mut_cmp_str
bytes_mut_cmp-shown slice h m xs ys shows = rw shows refl
bytes_mut_cmp-shown str h m xs ys shows = rw shows refl
bytes_mut_cmp-shown vec h m xs ys shows = rw shows refl
bytes_mut_cmp-shown string h m xs ys shows = rw shows refl
bytes_mut_cmp-shown slice_ref h m xs ys shows = rw shows refl
bytes_mut_cmp-shown str_ref h m xs ys shows = rw shows refl

-- What the comparisons of a handle that shows `xs` with `ys` come to, on both sides: the order of the
-- handle with the operand, whether the operand answers with that order or with the reverse one, and
-- the answer of the tests of equality.
abbrev pub Compared :
    (same_order : Bool) (xs ys : List ℕ) → Ordering → Ordering → Bool → Bool → Type 0
Compared same_order xs ys left right left_eq right_eq =
    (right ≡ (if same_order then left else reverse left))
    × ((left ≡ equal) ↔ (xs ≡ ys))
    × ((left_eq ≡ true) ↔ (xs ≡ ys))
    × (right_eq ≡ left_eq)

-- For every kind of operand, a `Bytes` that shows `xs` and the bytes `ys` compare as these do.
pub bytes-Compared :
    (k : Kind) (h : Bytes) (m : Memory) (xs ys : List ℕ)
    → as_slice h m ≡ ok xs m
    → (left right : Ordering) × (left_eq right_eq : Bool) × (bytes_cmp k h ys m ≡ ok left m)
      × (cmp_bytes k ys h m ≡ ok right m)
      × (bytes_eq k h ys m ≡ ok left_eq m)
      × (eq_bytes k ys h m ≡ ok right_eq m)
      × Compared false xs ys left right left_eq right_eq
unfolding eq_bytes
bytes-Compared k h m xs ys shows = (
  cmp_slice xs ys,
  cmp_slice ys xs,
  eq_slice xs ys,
  eq_slice xs ys,
  bytes_cmp-shown k h m xs ys shows,
  cmp_bytes-shown k h m xs ys shows,
  bytes_eq-shown k h m xs ys shows,
  bytes_eq-shown k h m xs ys shows,
  (cmp_slice-reverse xs ys, slice-equal_iff xs ys, eq_slice_iff xs ys, refl),
)

-- Whether the implementation asks the other operand.
pub asks_other : Kind → Bool
asks_other slice = false
asks_other str = false
asks_other vec = true
asks_other string = false
asks_other slice_ref = false
asks_other str_ref = true

cmp_bytes_mut-shown :
    (k : Kind) (h : BytesMut) (m : Memory) (xs ys : List ℕ)
    → BytesMut.as_slice h m ≡ ok xs m
    → cmp_bytes_mut k ys h m
      ≡ ok (if asks_other k then cmp_slice xs ys else reverse (cmp_slice xs ys)) m
unfolding cmp_bytes_mut asks_other
cmp_bytes_mut-shown slice h m xs ys shows = rw shows (ap (λ o. ok o m) (cmp_slice-reverse xs ys))
cmp_bytes_mut-shown str h m xs ys shows = rw shows (ap (λ o. ok o m) (cmp_slice-reverse xs ys))
cmp_bytes_mut-shown vec h m xs ys shows = bytes_mut_cmp-shown vec h m xs ys shows
cmp_bytes_mut-shown string h m xs ys shows = rw shows (ap (λ o. ok o m) (cmp_slice-reverse xs ys))
cmp_bytes_mut-shown slice_ref h m xs ys shows =
    rw shows (ap (λ o. ok o m) (cmp_slice-reverse xs ys))
cmp_bytes_mut-shown str_ref h m xs ys shows = bytes_mut_cmp-shown str_ref h m xs ys shows

-- A `BytesMut` that shows `xs`, compared with the bytes `ys` as a slice, a text, a vector, a
-- `String` or a reference to a slice or a text: the four comparisons return and leave the memory;
-- the order is equal, and each test of equality is true, exactly where `xs` is `ys`; the operand
-- answers with the reverse order, except that a vector and a string reference answer with the same
-- one.
pub bytes_mut-Compared :
    (k : Kind) (h : BytesMut) (m : Memory) (xs ys : List ℕ)
    → BytesMut.as_slice h m ≡ ok xs m
    → (left right : Ordering) × (left_eq right_eq : Bool) × (bytes_mut_cmp k h ys m ≡ ok left m)
      × (cmp_bytes_mut k ys h m ≡ ok right m)
      × (bytes_mut_eq k h ys m ≡ ok left_eq m)
      × (eq_bytes_mut k ys h m ≡ ok right_eq m)
      × Compared (asks_other k) xs ys left right left_eq right_eq
unfolding eq_bytes_mut
bytes_mut-Compared k h m xs ys shows = (
  cmp_slice xs ys,
  (if asks_other k then cmp_slice xs ys else reverse (cmp_slice xs ys)),
  eq_slice xs ys,
  eq_slice xs ys,
  bytes_mut_cmp-shown k h m xs ys shows,
  cmp_bytes_mut-shown k h m xs ys shows,
  bytes_mut_eq-shown k h m xs ys shows,
  bytes_mut_eq-shown k h m xs ys shows,
  (refl, slice-equal_iff xs ys, eq_slice_iff xs ys, refl),
)

-- Two handles, of one type or of the two, are equal exactly where they show the same bytes.
pub handles-equal_iff :
    (a : Bytes) (h : BytesMut) (m : Memory) (xs ys : List ℕ)
    → as_slice a m ≡ ok xs m
    → BytesMut.as_slice h m ≡ ok ys m
    → (there back : Bool) × (bytes_eq_bytes_mut a h m ≡ ok there m)
      × (bytes_mut_eq_bytes h a m ≡ ok back m)
      × ((there ≡ true) ↔ (xs ≡ ys))
      × ((back ≡ true) ↔ (xs ≡ ys))
unfolding bytes_eq_bytes_mut bytes_mut_eq_bytes
handles-equal_iff a h m xs ys first second =
    let forth = eq_slice_iff xs ys in
    let over = eq_slice_iff ys xs in
    (
      eq_slice ys xs,
      eq_slice xs ys,
      rw second (rw first refl),
      rw first (rw second refl),
      ((λ e. sym (over.0 e)), λ e. over.1 (sym e)),
      forth,
    )

-- Two handles of one type are ordered as equal exactly where they are equal.
pub orders-equal_iff :
    (a b : Bytes) (g h : BytesMut) (m : Memory) (xs ys : List ℕ)
    → as_slice a m ≡ ok xs m
    → as_slice b m ≡ ok ys m
    → BytesMut.as_slice g m ≡ ok xs m
    → BytesMut.as_slice h m ≡ ok ys m
    → (o : Ordering) × (alike : Bool) × (cmp a b m ≡ ok o m)
      × (cmp_mut g h m ≡ ok o m)
      × (eq a b m ≡ ok alike m)
      × (eq_mut g h m ≡ ok alike m)
      × ((o ≡ equal) ↔ (alike ≡ true))
unfolding eq cmp eq_mut cmp_mut
orders-equal_iff a b g h m xs ys first second third fourth =
    let order = slice-equal_iff xs ys in
    let test = eq_slice_iff xs ys in
    (
      cmp_slice xs ys,
      eq_slice xs ys,
      rw first (rw second refl),
      rw third (rw fourth refl),
      rw first (rw second refl),
      rw third (rw fourth refl),
      ((λ e. test.1 (order.0 e)), λ e. order.1 (test.0 e)),
    )
