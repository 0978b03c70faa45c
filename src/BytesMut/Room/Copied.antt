-- ===== src/BytesMut/Room/Copied.antt =====
-- `reserve_inner` of bytes/src/bytes_mut.rs on a box with other handles.
use native.Mathlib.Nat.{pow-suc}
use chiya.Prelude.{
  ℕ, zero, suc, ◌+◌, ◌-◌, ◌*◌, ◌%◌, ◌^◌, ◌≤◌, ◌≡◌, true, List, length, drop, ◌==◌, some, inl, inr,
  refl, ap, ◌∙◌, arith, length-take, Bool-cases, length-drop, take-append_le, take_all, max,
}
use chiya.Memory.{Memory, IsFresh}
use chiya.Memory.Access.{read-ok, live-lt, update_self, update-ne, IsFresh-alloc}
use chiya.Memory.Reserve.{allocated, vec_block, length-vec_block, vec_of-ok}
use chiya.Memory.Vec.{capacity_for}
use chiya.Memory.Returns.{Returns, returns, Returns-and_then}
use chiya.BytesMut.{BytesMut, as_slice, original_capacity_from_repr}
use chiya.BytesMut.Valid.{Valid, window, Keeps}
use chiya.BytesMut.Release.{release_shared-Dropped, Valid-allocated}
use chiya.BytesMut.Grow.{reserve_copy}
use chiya.BytesMut.Room.{Roomy, Affordable}

power_mono : (n k : ℕ) → 2 ^ n ≤ 2 ^ (n + k)
power_mono n zero = let e : 2 ^ n ≡ 2 ^ (n + zero) = ap (λ j. 2 ^ j) (omega arith) in omega arith
power_mono n (suc k) =
    let more = power_mono n k in
    let e : n + suc k ≡ suc (n + k) = omega arith in
    let double : 2 ^ (n + suc k) ≡ 2 ^ (n + k) * 2 = ap (λ j. 2 ^ j) e ∙ pow-suc 2 (n + k) in
    omega arith

pub original_capacity_from_repr-le :
    (repr : ℕ) → repr ≤ 7 → original_capacity_from_repr repr ≤ 2 ^ 16
unfolding original_capacity_from_repr
original_capacity_from_repr-le repr le = elim (Bool-cases (repr == 0)) [
  | inl none_kept ↦ rw none_kept (omega arith)
  | inr some_kept ↦
      let sixteen : repr + 9 + (7 - repr) ≡ 16 = omega arith in
      let top : 2 ^ (repr + 9 + (7 - repr)) ≡ 2 ^ 16 = ap (λ j. 2 ^ j) sixteen in
      let most = power_mono (repr + 9) (7 - repr) in rw some_kept (omega arith)
]

-- The other handles keep the block, and the new one is apart from all of them.
Keeps-copied :
    (m m' : Memory) (h h' : BytesMut) (n : ℕ)
    → IsFresh m
    → h'.ptr.block ≡ m.next
    → ((b : ℕ) (ys : List ℕ) → m.block b ≡ some ys → m'.block b ≡ some ys)
    → Keeps m h n m' h' 1
Keeps-copied m m' h h' n fresh new kept g xs (ys, live, inside, shows) beside = (
  (ys, kept g.ptr.block ys live, inside, shows),
  inl (λ e. let lt = live-lt m fresh g.ptr.block ys live in omega arith),
)

module _ (spare : ℕ → ℕ) where
  pub reserve_copy-Roomy :
      (m : Memory) (h : BytesMut) (bs : List ℕ) (n additional repr : ℕ)
      → IsFresh m
      → Valid m h bs (n + 1)
      → 1 ≤ n
      → h.word % 2 ≡ 0
      → repr ≤ 7
      → Affordable bs additional
      → Returns
          (Roomy m h bs (n + 1) additional)
          (reserve_copy spare h (h.len + additional) true repr m)
  unfolding reserve_copy as_slice
  reserve_copy-Roomy m h bs n additional repr fresh v pos even small afford =
      let inside = v.inside in
      let len_le = v.len_le in
      let sum = afford.sum in
      let src = window h bs in
      let needed = max (h.len + additional) (original_capacity_from_repr repr) in
      let low = original_capacity_from_repr-le repr small in
      let n_src : length src ≡ h.len =
        omega (arith, length-take h.len (drop h.ptr.offset bs), length-drop h.ptr.offset bs) in
      let same : (h.len == length src) ≡ true = ground arith in
      let made = allocated m (vec_block spare src needed) in
      let size = length-vec_block spare src needed (omega arith) (omega arith) in
      let keep : (b : ℕ) (ys : List ℕ) → m.block b ≡ some ys → made.block b ≡ some ys = λ b ys e.
        let lt = live-lt m fresh b ys e in update-ne m.block m.next b _ (λ q. omega arith) ∙ e in
      let v' = Valid-allocated m h bs (vec_block spare src needed) (n + 1) fresh v in
      rw (read-ok m h.ptr h.len bs v.live (omega arith), vec_of-ok spare src needed m (omega arith))
        (Returns-and_then (release_shared-Dropped made h bs n (IsFresh-alloc m fresh _) v' pos)
          (λ _ m' d.
            let block : (b : ℕ) → m'.block b ≡ made.block b = λ b. ap (λ f. f b) d.kept in
            rw same (
              returns
                {a = (
                  record {
                    ptr = record { block = m.next; offset = 0 };
                    len = h.len;
                    cap = capacity_for spare needed;
                    word = repr * 4 + 1;
                  },
                  true,
                )}
                (record {
                  done = refl;
                  len = refl;
                  room = omega arith;
                  becomes = (
                    record {
                      fresh = d.fresh;
                      bytes = vec_block spare src needed;
                      count = 1;
                      valid = record {
                        live = block m.next ∙ update_self m.block m.next _;
                        inside = omega arith;
                        len_le = omega arith;
                        small = omega arith;
                        form = inl (omega arith, omega arith, omega arith, omega arith, refl);
                      };
                      keeps =
                          Keeps-copied m m' h
                            (record h {
                              ptr = record { block = m.next; offset = 0 };
                              cap = capacity_for spare needed;
                            })
                            (n + 1) fresh refl (λ b ys e. block b ∙ keep b ys e);
                    },
                    take-append_le h.len src _ (omega arith) ∙ take_all h.len src (omega arith),
                  );
                }))))
