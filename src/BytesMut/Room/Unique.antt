-- ===== src/BytesMut/Room/Unique.antt =====
-- `reserve_inner` of bytes/src/bytes_mut.rs on a box with no other handle.
use chiya.Prelude.{
  ℕ, ◌+◌, ◌-◌, ◌*◌, ◌%◌, ◌^◌, ◌≤◌, ◌≡◌, true, false, List, length, take, drop, leb, ◌&&◌, some, inl,
  inr, refl, sym, ap, ◌∙◌, arith, Bool-cases, length-take, length-drop, max,
}
use chiya.Memory.{VecU8, Memory, update, IsFresh, shared_v, set_cell}
use chiya.Memory.Access.{
  splice, read-ok, write-ok, live-lt, cell-lt, update_self, update-ne, IsFresh-set_block,
  IsFresh-set_cell,
}
use chiya.Memory.Windows.{length-splice, window-splice_at}
use chiya.Memory.Reserve.{reserve-Grown}
use chiya.Memory.Returns.{Returns, returns, Returns-and_then}
use chiya.BytesMut.{BytesMut}
use chiya.BytesMut.Valid.{Valid, window}
use chiya.BytesMut.Grow.{reserve_unique}
use chiya.BytesMut.Room.{Roomy, Affordable, Keeps-elsewhere, window-prefix}

module _ (spare : ℕ → ℕ) (m : Memory) (h : BytesMut) (bs : List ℕ) (additional : ℕ) (vec : VecU8)
    (repr : ℕ) (fresh : IsFresh m) (v : Valid m h bs 1) (even : h.word % 2 ≡ 0)
    (box : m.cell h.word ≡ some (shared_v vec repr 1)) (buf : vec.buf ≡ h.ptr.block)
    (whole : vec.cap ≡ length bs) (small : repr ≤ 7) (afford : Affordable bs additional) where
  -- The bytes are moved to the front of the block.
  unique_front :
      leb (h.len + additional) vec.cap && leb h.len h.ptr.offset ≡ true
      → leb (h.len + additional + h.ptr.offset) vec.cap ≡ false
      → Returns
          (Roomy m h bs 1 additional)
          (reserve_unique spare h additional (h.len + additional) true vec repr m)
  unfolding reserve_unique
  unique_front front tight =
      let inside = v.inside in
      let len_le = v.len_le in
      let src = window h bs in
      let n_src : length src ≡ h.len =
        omega (arith, length-take h.len (drop h.ptr.offset bs), length-drop h.ptr.offset bs) in
      let fits : h.len ≤ length bs = omega arith in
      let sum = afford.sum in
      let word : leb (h.len + additional + h.ptr.offset) (2 ^ 64 - 1) ≡ true = ground arith in
      let size = length-splice 0 src bs (omega arith) in
      rw
        (
          word,
          tight,
          front,
          read-ok m h.ptr h.len bs v.live (omega arith),
          buf,
          write-ok m (record { block = h.ptr.block; offset = 0 }) src bs v.live (omega arith),
        )
        (returns
          {a = (record h { ptr = record { block = h.ptr.block; offset = 0 }; cap = vec.cap }, true)}
          (record {
            done = refl;
            len = refl;
            room = ground arith;
            becomes = (
              record {
                fresh =
                    IsFresh-set_block m fresh h.ptr.block _ (live-lt m fresh h.ptr.block bs v.live);
                bytes = splice 0 src bs;
                count = 1;
                valid = record {
                  live = update_self m.block h.ptr.block _;
                  inside = omega arith;
                  len_le = omega arith;
                  small = (let s = v.small in omega arith);
                  form = inr (even, vec, repr, box, buf, omega arith, small, omega arith);
                };
                keeps =
                    Keeps-elsewhere m
                      (record m { block = update m.block h.ptr.block (some (splice 0 src bs)) }) h
                      (record h { ptr = record { block = h.ptr.block; offset = 0 }; cap = vec.cap })
                      1 (λ b ys ne e. (update-ne m.block h.ptr.block b _ ne ∙ e, ne));
              },
              ap (λ k. take k (drop 0 (splice 0 src bs))) (sym n_src)
                  ∙ window-splice_at 0 src bs (omega arith),
            );
          }))

  -- The vector of the box grows.
  unique_grown :
      leb (h.len + additional) vec.cap && leb h.len h.ptr.offset ≡ false
      → leb (h.len + additional + h.ptr.offset) vec.cap ≡ false
      → Returns
          (Roomy m h bs 1 additional)
          (reserve_unique spare h additional (h.len + additional) true vec repr m)
  unfolding reserve_unique set_cell
  unique_grown full tight =
      let inside = v.inside in
      let len_le = v.len_le in
      let double = afford.double in
      let sum = afford.sum in
      let off = h.ptr.offset in
      let wide = max (vec.cap * 2 % 2 ^ 64) (h.len + additional + off) in
      let no_wrap : vec.cap * 2 % 2 ^ 64 ≡ vec.cap * 2 = omega arith in
      let word : leb (h.len + additional + off) (2 ^ 64 - 1) ≡ true = ground arith in
      let held : leb (off + h.len) vec.cap ≡ true = ground arith in
      let old : VecU8 = record vec { len = off + h.len } in
      let needed : off + h.len + (wide - (off + h.len)) ≡ wide = omega arith in
      rw (word, tight, full, held)
        (Returns-and_then
          (reserve-Grown spare m old bs (wide - (off + h.len)) fresh (rw buf v.live) whole
            (omega arith) v.small (omega arith))
          (λ w m' g.
            let len = g.len in
            let room = g.room in
            let cap = g.cap in
            let box' : m'.cell h.word ≡ some (shared_v vec repr 1) =
              ap (λ f. f h.word) g.cells ∙ box in
            returns
              {a = (
                record h { ptr = record { block = w.buf; offset = off }; cap = w.cap - off },
                true,
              )}
              (record {
                done = refl;
                len = refl;
                room = omega arith;
                becomes = (
                  record {
                    fresh = IsFresh-set_cell m' g.fresh h.word _ (cell-lt m' g.fresh h.word _ box');
                    bytes = g.bytes;
                    count = 1;
                    valid = record {
                      live = g.live;
                      inside = omega arith;
                      len_le = omega arith;
                      small = g.small;
                      form = inr (
                        even,
                        w,
                        repr,
                        update_self m'.cell h.word _,
                        refl,
                        cap,
                        small,
                        omega arith,
                      );
                    };
                    keeps =
                        Keeps-elsewhere m m' h
                          (record h {
                            ptr = record { block = w.buf; offset = off };
                            cap = w.cap - off;
                          })
                          1 (λ b ys ne e. g.others b ys (λ q. ne (q ∙ buf)) e);
                  },
                  window-prefix off h.len (off + h.len) g.bytes bs g.same (omega arith),
                );
              })))

  pub reserve_unique-Roomy :
      Returns
        (Roomy m h bs 1 additional)
        (reserve_unique spare h additional (h.len + additional) true vec repr m)
  unfolding reserve_unique
  reserve_unique-Roomy =
      let inside = v.inside in
      let len_le = v.len_le in
      let sum = afford.sum in
      let word : leb (h.len + additional + h.ptr.offset) (2 ^ 64 - 1) ≡ true = ground arith in
      elim (Bool-cases (leb (h.len + additional + h.ptr.offset) vec.cap)) [
        | inl fits ↦
            rw (word, fits)
              (returns {a = (record h { cap = h.len + additional }, true)} (record {
                done = refl;
                len = refl;
                room = omega arith;
                becomes = (
                  record {
                    fresh = fresh;
                    bytes = bs;
                    count = 1;
                    valid = record {
                      live = v.live;
                      inside = ground arith;
                      len_le = omega arith;
                      small = v.small;
                      form = inr (even, vec, repr, box, buf, whole, small, omega arith);
                    };
                    keeps =
                        Keeps-elsewhere m m h (record h { cap = h.len + additional }) 1
                          (λ b ys ne e. (e, ne));
                  },
                  refl,
                );
              }))
        | inr tight ↦
            elim (Bool-cases (leb (h.len + additional) vec.cap && leb h.len h.ptr.offset)) [
              | inl front ↦ unique_front front tight
              | inr full ↦ unique_grown full tight
            ]
      ]
