-- ===== src/BytesMut/Room/Owned.antt =====
-- `reserve_inner` of bytes/src/bytes_mut.rs on a vector.
use chiya.Prelude.{
  ℕ, ◌+◌, ◌-◌, ◌*◌, ◌/◌, ◌%◌, ◌≡◌, true, false, List, length, take, drop, leb, ◌==◌, ◌&&◌, some,
  inl, inr, refl, sym, ap, ◌∙◌, arith, Bool-cases, length-take, length-drop,
}
use chiya.Memory.{Ptr, VecU8, Memory, update, IsFresh}
use chiya.Memory.Access.{
  splice, read-ok, write-ok, live-lt, update_self, update-ne, IsFresh-set_block,
}
use chiya.Memory.Windows.{length-splice, window-splice_at}
use chiya.Memory.Reserve.{reserve-Grown}
use chiya.Memory.Returns.{Returns, returns, Returns-and_then}
use chiya.BytesMut.{BytesMut, set_vec_pos, rebuild_vec}
use chiya.BytesMut.Valid.{Valid, IsVec, window}
use chiya.BytesMut.Grow.{reserve_vec}
use chiya.BytesMut.Room.{Roomy, Affordable, Keeps-elsewhere, window-prefix}

module _ (spare : ℕ → ℕ) (m : Memory) (h : BytesMut) (bs : List ℕ) (additional : ℕ)
    (fresh : IsFresh m) (v : Valid m h bs 1) (afford : Affordable bs additional) where
  -- The bytes are moved to the front of the block.
  vec_front :
      IsVec h bs 1
      → leb additional (h.cap - h.len + h.word / 32) && leb h.len (h.word / 32) ≡ true
      → Returns (Roomy m h bs 1 additional) (reserve_vec spare h additional true m)
  unfolding reserve_vec set_vec_pos
  vec_front (odd, small, offset, all, one) front =
      let inside = v.inside in
      let len_le = v.len_le in
      let double = afford.double in
      let sum = afford.sum in
      let base : Ptr = record { block = h.ptr.block; offset = h.ptr.offset - h.word / 32 } in
      let src = window h bs in
      let n_src : length src ≡ h.len =
        omega (arith, length-take h.len (drop h.ptr.offset bs), length-drop h.ptr.offset bs) in
      let start : h.ptr.offset - h.word / 32 ≡ 0 = omega arith in
      let vec : (h.word % 2 == 1) ≡ true = ground arith in
      let size = length-splice base.offset src bs (omega arith) in
      rw
        (
          front,
          read-ok m h.ptr h.len bs v.live (omega arith),
          write-ok m base src bs v.live (omega arith),
          vec,
        )
        (returns
          {a = (
            record h { ptr = base; cap = h.cap + h.word / 32; word = 0 * 32 + h.word % 32 },
            true,
          )}
          (record {
            done = refl;
            len = refl;
            room = ground arith;
            becomes = (
              record {
                fresh =
                    IsFresh-set_block m fresh h.ptr.block _ (live-lt m fresh h.ptr.block bs v.live);
                bytes = splice base.offset src bs;
                count = 1;
                valid = record {
                  live = update_self m.block h.ptr.block _;
                  inside = omega arith;
                  len_le = omega arith;
                  small = (let s = v.small in omega arith);
                  form = inl (omega arith, omega arith, omega arith, omega arith, refl);
                };
                keeps =
                    Keeps-elsewhere m
                      (record m {
                        block = update m.block h.ptr.block (some (splice base.offset src bs));
                      })
                      h (record h { ptr = base; cap = h.cap + h.word / 32 }) 1
                      (λ b ys ne e. (update-ne m.block h.ptr.block b _ ne ∙ e, ne));
              },
              ap (λ k. take k (drop base.offset (splice base.offset src bs))) (sym n_src)
                  ∙ window-splice_at base.offset src bs (omega arith),
            );
          }))

  -- The vector grows.
  vec_grown :
      IsVec h bs 1
      → leb additional (h.cap - h.len + h.word / 32) && leb h.len (h.word / 32) ≡ false
      → Returns (Roomy m h bs 1 additional) (reserve_vec spare h additional true m)
  unfolding reserve_vec rebuild_vec
  vec_grown (odd, small, offset, all, one) full =
      let inside = v.inside in
      let len_le = v.len_le in
      let double = afford.double in
      let sum = afford.sum in
      let whole : (h.ptr.offset == h.word / 32) ≡ true = ground arith in
      let vec : VecU8 = record {
        buf = h.ptr.block;
        len = h.len + h.word / 32;
        cap = h.cap + h.word / 32;
      } in
      rw (full, whole)
        (Returns-and_then
          (reserve-Grown spare m vec bs additional fresh v.live (omega arith) (omega arith) v.small
            (omega arith))
          (λ w m' g.
            let len = g.len in
            let room = g.room in
            let cap = g.cap in
            let kept : (h.len == w.len - h.word / 32) ≡ true = ground arith in
            rw kept (
              returns
                {a = (
                  record h {
                    ptr = record { block = w.buf; offset = h.word / 32 };
                    cap = w.cap - h.word / 32;
                  },
                  true,
                )}
                (record {
                  done = refl;
                  len = refl;
                  room = omega arith;
                  becomes = (
                    record {
                      fresh = g.fresh;
                      bytes = g.bytes;
                      count = 1;
                      valid = record {
                        live = g.live;
                        inside = omega arith;
                        len_le = omega arith;
                        small = g.small;
                        form = inl (odd, small, refl, omega arith, refl);
                      };
                      keeps =
                          Keeps-elsewhere m m' h
                            (record h {
                              ptr = record { block = w.buf; offset = h.word / 32 };
                              cap = w.cap - h.word / 32;
                            })
                            1 g.others;
                    },
                    ap (λ k. take h.len (drop k g.bytes)) offset
                        ∙ window-prefix h.ptr.offset h.len (h.len + h.word / 32) g.bytes bs g.same
                            (omega arith),
                  );
                }))))

  pub reserve_vec-Roomy :
      IsVec h bs 1 → Returns (Roomy m h bs 1 additional) (reserve_vec spare h additional true m)
  reserve_vec-Roomy own =
      elim (Bool-cases (leb additional (h.cap - h.len + h.word / 32) && leb h.len (h.word / 32))) [
        | inl front ↦ vec_front own front
        | inr full ↦ vec_grown own full
      ]
