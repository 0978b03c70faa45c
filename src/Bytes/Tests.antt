-- ===== src/Bytes/Tests.antt =====
-- The theorems on `Bytes` at concrete handles of four bytes.
use chiya.Prelude.{
  ℕ, ◌≡◌, refl, arith, false, ◌==◌, List, [], ◌∷◌, some, none, inl, inr, if◌then◌else◌, Bool,
}
use chiya.Memory.{Ptr, shared, shared_v, Memory, panic, undefined, Eff, pure, IsFresh, ok}
use chiya.Memory.Access.{read-ok}
use chiya.Memory.Returns.{Returns}
use chiya.BytesMut
use chiya.BytesMut.{BytesMut}
use chiya.BytesMut.Valid.{Valid}
use chiya.Bytes.{Bytes, promotable_even_vtable, shared_vtable, buffer, boxed}
use chiya.Bytes.Split.{begin_of, end_of, is_promotable, included, excluded, slice}
use chiya.Bytes.Convert.{from_box, to_mut, to_vec}
use chiya.Bytes.Views.{Views, Good}
use chiya.Bytes.Parts.{Shown, slice-Shown}
use chiya.Bytes.Lifetime.{copy_and_drop, FreesOnly, shared-copy_and_drop, promotable-copy_and_drop}
use chiya.Bytes.Freeze.{thaw, thaw-Views, from_box-panic}
use chiya.Bytes.Compare.{Ordering, vec, bytes_mut_cmp, cmp_bytes_mut, bytes_mut_eq, eq_bytes_mut}
use chiya.Bytes.Compare.Order.{Compared, asks_other, bytes_mut-Compared}

abbrev four : List ℕ
four = 10 ∷ 20 ∷ 30 ∷ 40 ∷ []

abbrev no_spare : ℕ → ℕ
no_spare n = 0

abbrev sixteen : ℕ → ℕ
sixteen k = 16

abbrev no_owner : ℕ → Eff (Unit {0})
no_owner a = pure tt

abbrev start : Ptr
start = record { block = 0; offset = 0 }

abbrev plain_memory : Memory
plain_memory = record {
  next = 1;
  block = λ k. if k == 0 then some four else none;
  cell = λ k. none;
}

abbrev plain : Bytes
plain = record { ptr = start; len = 4; data_ptr = buffer 0 17; vtable = promotable_even_vtable }

plain-Good : Good plain_memory plain four
plain-Good = record {
  views = record { bytes = four; live = refl; inside = omega arith; shows = refl };
  backs = inl (17, refl, refl);
}

abbrev box_memory : Memory
box_memory = record {
  next = 2;
  block = λ k. if k == 0 then some four else none;
  cell = λ k. if k == 2 then some (shared_v (record { buf = 0; len = 4; cap = 4 }) 0 2) else none;
}

abbrev left_handle : BytesMut
left_handle = record { ptr = start; len = 2; cap = 2; word = 2 }

box-IsFresh : IsFresh box_memory
box-IsFresh = record {
  no_block = λ k le. let ne : (k == 0) ≡ false = ground arith in rw ne refl;
  no_cell = λ k le. let ne : (k == 2) ≡ false = ground arith in rw ne refl;
}

left-Valid : Valid box_memory left_handle four 2
left-Valid = record {
  live = refl;
  inside = omega arith;
  len_le = omega arith;
  small = omega arith;
  form =
      inr
        (refl, record { buf = 0; len = 4; cap = 4 }, 0, refl, refl, refl, omega arith, omega arith);
}

slice-Shown_example :
    Returns (Shown four (20 ∷ 30 ∷ [])) (slice plain (included 1) (excluded 3) plain_memory)
unfolding begin_of end_of
slice-Shown_example =
    slice-Shown plain_memory plain four (included 1) (excluded 3) 1 3 plain-Good refl refl
      (omega arith) (omega arith)

shared-copy_and_drop_example :
    copy_and_drop no_owner
      (record { ptr = start; len = 3; data_ptr = boxed 2; vtable = shared_vtable })
      (record plain_memory { cell = λ k. if k == 2 then some (shared 0 4 1) else none })
    ≡ undefined
shared-copy_and_drop_example =
    shared-copy_and_drop no_owner
      (record plain_memory { cell = λ k. if k == 2 then some (shared 0 4 1) else none }) start 3 2 0
      4 four refl refl refl

promotable-copy_and_drop_example :
    Returns (λ _ m'. FreesOnly 0 plain_memory m') (copy_and_drop no_owner plain plain_memory)
unfolding is_promotable
promotable-copy_and_drop_example =
    promotable-copy_and_drop no_owner plain_memory start 4 17 four refl refl refl
      promotable_even_vtable refl

thaw-Views_example :
    Returns
      (λ h' m'. Views m' h'.ptr h'.len (10 ∷ 20 ∷ []))
      (thaw no_spare sixteen no_owner left_handle box_memory)
thaw-Views_example =
    thaw-Views no_spare sixteen no_owner box_memory left_handle four 2 box-IsFresh left-Valid refl

from_box-panic_example :
    (to_vec no_spare (from_box sixteen 0 4) plain_memory ≡ panic)
    × (to_mut no_spare no_owner (from_box sixteen 0 4) plain_memory ≡ panic)
from_box-panic_example =
    from_box-panic no_spare sixteen no_owner plain_memory 0 4 (omega arith) (omega arith)

left-shown : BytesMut.as_slice left_handle box_memory ≡ ok (10 ∷ 20 ∷ []) box_memory
unfolding BytesMut.as_slice
left-shown = read-ok box_memory start 2 four refl (omega arith)

bytes_mut-Compared_example :
    (left right : Ordering) × (left_eq right_eq : Bool) × (bytes_mut_cmp vec left_handle
        (9 ∷ [])
        box_memory
      ≡ ok left box_memory)
    × (cmp_bytes_mut vec (9 ∷ []) left_handle box_memory ≡ ok right box_memory)
    × (bytes_mut_eq vec left_handle (9 ∷ []) box_memory ≡ ok left_eq box_memory)
    × (eq_bytes_mut vec (9 ∷ []) left_handle box_memory ≡ ok right_eq box_memory)
    × Compared (asks_other vec) (10 ∷ 20 ∷ []) (9 ∷ []) left right left_eq right_eq
bytes_mut-Compared_example =
    bytes_mut-Compared vec left_handle box_memory (10 ∷ 20 ∷ []) (9 ∷ []) left-shown
