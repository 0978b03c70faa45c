-- ===== src/Bytes/Freeze.antt =====
-- The ways from a `BytesMut` to a `Bytes` and back (bytes/src/bytes_mut.rs and bytes/src/bytes.rs).
use chiya.Prelude.{
  ℕ, ◌+◌, ◌-◌, ◌*◌, ◌/◌, ◌%◌, ◌≤◌, ◌≡◌, inl, inr, true, false, List, length, take, drop, ◌==◌, leb,
  some, refl, ap, ◌∙◌, arith, Bool-cases, take-append_le, take_all,
}
use mathlib.Core.Path.{subst}
use chiya.Memory.{Ptr, Memory, ok, panic, IsFresh, new_cell, Eff, ◌>>=◌}
use chiya.Memory.Access.{update_self, IsFresh-alloc}
use chiya.Memory.Returns.{Returns, returns, Returns-and_then}
use chiya.Memory.Reserve.{vec_of-ok, vec_block, length-vec_block, allocated}
use chiya.BytesMut.{BytesMut, from_vec, rebuild_vec}
use chiya.BytesMut.Valid.{Valid, window}
use chiya.BufMut.Vec.{isize_max}
use chiya.BytesMut.Clone.{shared_at-ok}
use chiya.BytesMut.Release.{release_shared-Dropped, Valid-allocated}
use chiya.Bytes.{slice_at, new, from_static, as_slice, inc_start, advance}
use chiya.Bytes.Tables.{offset_from}
use chiya.Bytes.Convert.{
  from_box, from_vec_u8, freeze, slice_to_vec, shared_v_to_mut, to_mut, to_vec, promotable_to_vec,
  promotable_to_mut,
}
use chiya.Bytes.Views.{Views, slice_at-ok, Views-length}

-- A vector made into a handle of which the first `offset` bytes are skipped.
from_vec_u8-Views :
    (base : ℕ → ℕ) (m : Memory) (buf len cap offset : ℕ) (bs : List ℕ)
    → m.block buf ≡ some bs
    → len ≤ length bs
    → offset ≤ len
    → Returns
        (λ b m'. as_slice b m' ≡ ok (take (len - offset) (drop offset bs)) m')
        ((from_vec_u8 base (record { buf = buf; len = len; cap = cap }) >>= λ b. advance b offset)
          m)
unfolding from_vec_u8 from_box new from_static advance inc_start as_slice slice_at new_cell
from_vec_u8-Views base m buf len cap offset bs live inside le =
    let fits : leb offset len ≡ true = ground arith in
    let even : (m.next * 2 % 2 == 0) ≡ true = ground arith in
    let at : Ptr = record { block = buf; offset = 0 + offset } in
    let views : (m' : Memory)
        → m'.block ≡ m.block
        → Views m' at (len - offset) (take (len - offset) (drop offset bs)) =
      λ m' kept. record {
        bytes = bs;
        live = ap (λ f. f buf) kept ∙ live;
        inside = omega arith;
        shows = ap (λ k. take (len - offset) (drop k bs)) (omega arith);
      } in
    let show : (m' : Memory)
        → m'.block ≡ m.block
        → slice_at at (len - offset) m' ≡ ok (take (len - offset) (drop offset bs)) m' =
      λ m' kept. slice_at-ok m' at (len - offset) _ (views m' kept) in
    elim (Bool-cases (len == cap)) [
      | inr roomy ↦ rw (roomy, even, fits) (returns (show _ refl))
      | inl full ↦ elim (Bool-cases (len == 0)) [
        | inl none_there ↦
            let start : leb offset 0 ≡ true = ground arith in
            let empty : (0 - offset == 0) ≡ true = ground arith in
            let zero : 0 ≡ len - offset = ground arith in
            rw (full, none_there)
              (rw start (returns (rw empty (ap (λ k. ok (take k (drop offset bs)) m) zero))))
        | inr some_there ↦ elim (Bool-cases (base buf % 2 == 0)) [
          | inl low ↦ rw (full, some_there, low, fits) (returns (show m refl))
          | inr high ↦ rw (full, some_there, high, fits) (returns (show m refl))
        ]
      ]
    ]

Valid-Views :
    (m : Memory) (h : BytesMut) (bs : List ℕ) (n : ℕ)
    → Valid m h bs n
    → Views m h.ptr h.len (window h bs)
Valid-Views m h bs n v =
    let inside = v.inside in
    let len_le = v.len_le in
    record { bytes = bs; live = v.live; inside = omega arith; shows = refl }

-- A valid `BytesMut` freezes into a `Bytes` that shows the same bytes, wherever the blocks are.
pub freeze-Views :
    (base : ℕ → ℕ) (m : Memory) (h : BytesMut) (bs : List ℕ) (n : ℕ)
    → Valid m h bs n
    → Returns (λ b m'. as_slice b m' ≡ ok (window h bs) m') (freeze base h m)
unfolding freeze rebuild_vec as_slice
freeze-Views base m h bs n v =
    let inside = v.inside in
    let len_le = v.len_le in
    elim v.form [
      | inl (odd, small, offset, all, one) ↦
          let vec : (h.word % 2 == 1) ≡ true = ground arith in
          let front : (h.ptr.offset == h.word / 32) ≡ true = ground arith in
          let count : h.len + h.word / 32 - h.word / 32 ≡ h.len = omega arith in
          let same : take (h.len + h.word / 32 - h.word / 32) (drop (h.word / 32) bs)
              ≡ window h bs =
            ap (λ k. take k (drop (h.word / 32) bs)) count
            ∙ ap (λ k. take h.len (drop k bs)) offset in
          rw (vec, front)
            (subst
              (λ k.
                Returns (λ b m'. as_slice b m' ≡ ok k m')
                  ((from_vec_u8 base (record {
                    buf = h.ptr.block;
                    len = h.len + h.word / 32;
                    cap = h.cap + h.word / 32;
                  })
                      >>= λ b. advance b (h.word / 32))
                    m))
              same
              (from_vec_u8-Views base m h.ptr.block (h.len + h.word / 32) (h.cap + h.word / 32)
                (h.word / 32) bs v.live (omega arith) (omega arith)))
      | inr (even, vec, repr, box, buf, whole, small, pos) ↦
          let arc : (h.word % 2 == 1) ≡ false = ground arith in
          let kind : (h.word % 2 == 0) ≡ true = ground arith in
          rw (arc, kind)
            (returns (slice_at-ok m h.ptr h.len (window h bs) (Valid-Views m h bs n v)))
    ]

-- Where the buffer of a boxed slice that is not empty has an address of 2 at least, the `Bytes`
-- made of it panics when it is taken for a `Vec<u8>`, and when it is taken for a `BytesMut`.
pub from_box-panic :
    (spare base : ℕ → ℕ) (drop_owner : ℕ → Eff (Unit {0})) (m : Memory) (buf len : ℕ)
    → 2 ≤ base buf
    → 1 ≤ len
    → (to_vec spare (from_box base buf len) m ≡ panic)
      × (to_mut spare drop_owner (from_box base buf len) m ≡ panic)
unfolding from_box to_vec to_mut promotable_to_vec promotable_to_mut
from_box-panic spare base drop_owner m buf len high pos =
    let some_there : (len == 0) ≡ false = ground arith in
    elim (Bool-cases (base buf % 2 == 0)) [
      | inl low ↦
          let tagged : ((base buf + 1) % 2 == 0) ≡ false = ground arith in
          let no_box : ((base buf + 1) * 1 == 0) ≡ false = ground arith in
          let no_tag : ((base buf + 1) * 1 == 1) ≡ false = ground arith in
          (rw (some_there, low) (rw tagged refl), rw (some_there, low) (rw (no_box, no_tag) refl))
      | inr odd ↦
          let no_box : (base buf * 1 == 0) ≡ false = ground arith in
          let no_tag : (base buf * 1 == 1) ≡ false = ground arith in
          (rw (some_there, odd) (rw odd refl), rw (some_there, odd) (rw (no_box, no_tag) refl))
    ]

-- A handle of a box, frozen and made mutable again.
abbrev pub thaw : (ℕ → ℕ) → (ℕ → ℕ) → (ℕ → Eff (Unit {0})) → BytesMut → Eff BytesMut
thaw spare base drop_owner h = freeze base h >>= to_mut spare drop_owner

-- The block of a vector made of bytes shows them.
vec_block-Views :
    (spare : ℕ → ℕ) (xs : List ℕ) (m : Memory) (block : ℕ)
    → length xs ≤ isize_max
    → m.block block ≡ some (vec_block spare xs (length xs))
    → Views m (record { block = block; offset = 0 }) (length xs) xs
vec_block-Views spare xs m block small live = record {
  bytes = vec_block spare xs (length xs);
  live = live;
  inside = omega (arith, length-vec_block spare xs (length xs) (omega arith) (omega arith));
  shows = take-append_le (length xs) xs _ (omega arith) ∙ take_all (length xs) xs (omega arith);
}

thaw_box :
    (spare : ℕ → ℕ) (m : Memory) (h : BytesMut) (bs : List ℕ) (n : ℕ)
    → IsFresh m
    → Valid m h bs n
    → h.word % 2 ≡ 0
    → Returns
        (λ h' m'. Views m' h'.ptr h'.len (window h bs))
        (shared_v_to_mut spare h.word h.ptr h.len m)
unfolding shared_v_to_mut slice_to_vec offset_from from_vec
thaw_box spare m h bs n fresh v even =
    let small = v.small in
    let inside = v.inside in
    let len_le = v.len_le in
    let views = Valid-Views m h bs n v in
    let size = Views-length m h.ptr h.len (window h bs) views in
    elim v.form [
      | inl (odd, _, _, _, _) ↦ absurd (omega arith)
      | inr (_, vec, repr, box, buf, whole, low, pos) ↦
          let here : (h.ptr.block == vec.buf) ≡ true = ground arith in
          rw (shared_at-ok m h.word vec repr n box) (elim (Bool-cases (n == 1)) [
            | inl one ↦ rw (one, here) (returns views)
            | inr more ↦
                let e : n ≡ n - 1 + 1 = ground arith in
                let xs = window h bs in
                let made = allocated m (vec_block spare xs (length xs)) in
                let v' : Valid made h bs (n - 1 + 1) =
                  subst (λ k. Valid made h bs k) e
                    (Valid-allocated m h bs (vec_block spare xs (length xs)) n fresh v) in
                rw
                  (
                    more,
                    slice_at-ok m h.ptr h.len xs views,
                    vec_of-ok spare xs (length xs) m (omega arith),
                  )
                  (Returns-and_then
                    (release_shared-Dropped made h bs (n - 1) (IsFresh-alloc m fresh _) v'
                      (ground arith))
                    (λ _ m' d. returns (
                      vec_block-Views spare xs m' m.next (omega arith)
                        (ap (λ f. f m.next) d.kept ∙ update_self m.block m.next _))))
          ])
    ]

-- From a memory in which nothing is allocated past `next`, a valid `BytesMut` of a box, frozen and
-- made mutable again, shows the same bytes, whether it was the only handle or not.
pub thaw-Views :
    (spare base : ℕ → ℕ) (drop_owner : ℕ → Eff (Unit {0})) (m : Memory) (h : BytesMut) (bs : List ℕ)
    (n : ℕ)
    → IsFresh m
    → Valid m h bs n
    → h.word % 2 ≡ 0
    → Returns (λ h' m'. Views m' h'.ptr h'.len (window h bs)) (thaw spare base drop_owner h m)
unfolding freeze to_mut
thaw-Views spare base drop_owner m h bs n fresh v even =
    let arc : (h.word % 2 == 1) ≡ false = ground arith in
    let kind : (h.word % 2 == 0) ≡ true = ground arith in
    rw (arc, kind) (thaw_box spare m h bs n fresh v even)
