-- ===== src/BytesMut/IntoVec.antt =====
-- `From<BytesMut> for Vec<u8>` of bytes/src/bytes_mut.rs.
use chiya.Prelude.{
  ℕ, ◌+◌, ◌-◌, ◌/◌, ◌%◌, ◌≡◌, ◌≢◌, true, false, List, length, take, drop, ◌==◌, some, inl, inr,
  refl, sym, ap, ◌∙◌, arith, Bool-cases, length-take, length-drop, take-append_le, take_all,
}
use mathlib.Core.Path.{subst}
use chiya.Memory.{VecU8, Memory, IsFresh, set_cell, ◌>>=◌, ◌>>◌, pure}
use chiya.Memory.Access.{splice, read-ok, write-ok, update_self, IsFresh-alloc}
use chiya.Memory.Windows.{window-splice_at}
use chiya.Memory.Reserve.{allocated, vec_block, vec_of-ok}
use chiya.Memory.Vec.{vec_of}
use chiya.Memory.Returns.{Returns, returns, Returns-and_then}
use chiya.BytesMut.{BytesMut, as_slice, rebuild_vec, release}
use chiya.BytesMut.Valid.{Valid, window}
use chiya.BytesMut.Clone.{shared_at-ok}
use chiya.BytesMut.Release.{Valid-pos, Valid-allocated, release-Dropped}
use chiya.BytesMut.Grow.{move_to_front, into_vec}

-- In `m` the vector has the elements `xs`.
abbrev pub Holds : List ℕ → VecU8 → Memory → Type 0
Holds xs v m = (ys : List ℕ) × (m.block v.buf ≡ some ys) × (take v.len ys ≡ xs)

module _ (spare : ℕ → ℕ) (m : Memory) (h : BytesMut) (bs : List ℕ) (n : ℕ)
    (v : Valid m h bs n) where
  moved-Holds :
      (m' : Memory) (vec : VecU8)
      → m'.block ≡ m.block
      → vec.buf ≡ h.ptr.block
      → Returns (Holds (window h bs)) (move_to_front spare h vec m')
  unfolding move_to_front
  moved-Holds m' vec kept buf =
      let inside = v.inside in
      let len_le = v.len_le in
      let src = window h bs in
      let live : m'.block h.ptr.block ≡ some bs = ap (λ f. f h.ptr.block) kept ∙ v.live in
      let n_src : length src ≡ h.len =
        omega (arith, length-take h.len (drop h.ptr.offset bs), length-drop h.ptr.offset bs) in
      rw
        (
          read-ok m' h.ptr h.len bs live (omega arith),
          buf,
          write-ok m' (record { block = h.ptr.block; offset = 0 }) src bs live (omega arith),
        )
        (returns (
          splice 0 src bs,
          update_self m'.block h.ptr.block _,
          ap (λ k. take k (drop 0 (splice 0 src bs))) (sym n_src)
              ∙ window-splice_at 0 src bs (omega arith),
        ))

  copied-Holds :
      IsFresh m
      → n ≢ 1
      → Returns
          (Holds (window h bs))
          (((as_slice h) >>= λ xs. (vec_of spare xs (length xs)) >>= λ w. release h >> pure w) m)
  unfolding as_slice
  copied-Holds fresh ne =
      let inside = v.inside in
      let len_le = v.len_le in
      let small = v.small in
      let pos = Valid-pos m h bs n v in
      let xs = window h bs in
      let n_xs : length xs ≡ h.len =
        omega (arith, length-take h.len (drop h.ptr.offset bs), length-drop h.ptr.offset bs) in
      let e : n ≡ n - 1 + 1 = omega arith in
      let made = allocated m (vec_block spare xs (length xs)) in
      let v' : Valid made h bs (n - 1 + 1) =
        subst (λ k. Valid made h bs k) e
          (Valid-allocated m h bs (vec_block spare xs (length xs)) n fresh v) in
      rw
        (
          read-ok m h.ptr h.len bs v.live (omega arith),
          vec_of-ok spare xs (length xs) m (omega arith),
        )
        (Returns-and_then
          (release-Dropped made h bs (n - 1) (IsFresh-alloc m fresh _) v' (omega arith))
          (λ _ m' d. returns (
            vec_block spare xs (length xs),
            ap (λ f. f m.next) d.kept ∙ update_self m.block m.next _,
            take-append_le (length xs) xs _ (omega arith) ∙ take_all (length xs) xs (omega arith),
          )))

  -- From a memory in which nothing is allocated past `next`, a valid `BytesMut` becomes a vector
  -- whose elements are the bytes that it showed, in each of its states.
  pub into_vec-Holds : IsFresh m → Returns (Holds (window h bs)) (into_vec spare h m)
  unfolding into_vec rebuild_vec set_cell
  into_vec-Holds fresh = elim v.form [
    | inl (odd, small, offset, all, one) ↦
        let vec : (h.word % 2 == 1) ≡ true = ground arith in
        let front : (h.ptr.offset == h.word / 32) ≡ true = ground arith in
        rw (vec, front) (moved-Holds m _ refl refl)
    | inr (even, vec, repr, box, buf, whole, small, pos) ↦
        let arc : (h.word % 2 == 1) ≡ false = ground arith in
        rw (arc, shared_at-ok m h.word vec repr n box)
          (elim (Bool-cases (n == 1)) [
            | inl one ↦ rw one (moved-Holds _ vec refl buf)
            | inr more ↦ rw more (copied-Holds fresh (λ e. ground arith))
          ])
  ]
