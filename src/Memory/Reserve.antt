-- ===== src/Memory/Reserve.antt =====
-- What `Vec::reserve` and the allocation of a vector leave.
use chiya.Prelude.{
  ℕ, suc, ◌+◌, ◌-◌, ◌≤◌, ◌≡◌, ◌≢◌, refl, sym, ◌∙◌, true, List, ◌++◌, length, take, replicate, leb,
  some, none, inl, inr, arith, Bool-cases, length-append, length-replicate, length-take,
  take-append_le,
}
use chiya.Memory.{VecU8, Memory, ok, update, IsFresh, alloc}
use chiya.Memory.Access.{
  update_self, update-ne, live-lt, block_at-ok, dealloc-ok, IsFresh-alloc, IsFresh-set_block,
}
use chiya.Memory.Windows.{take-take_le}
use chiya.Memory.Returns.{Returns, returns}
use chiya.Memory.Vec.{capacity_for, vec_of, reserve}
use chiya.BufMut.Vec.{isize_max}

-- The memory with one block more.
abbrev pub allocated : Memory → List ℕ → Memory
allocated m bs = record m { next = suc m.next; block = update m.block m.next (some bs) }

-- A vector that keeps the first `len` of the bytes `bs` and has room for `needed`.
pub record Grown (m : Memory) (v : VecU8) (bs : List ℕ) (needed : ℕ) (w : VecU8) (m' : Memory)
    : Type 0 where
  pub bytes : List ℕ
  pub live : m'.block w.buf ≡ some bytes
  pub cap : w.cap ≡ length bytes
  pub len : w.len ≡ v.len
  pub room : needed ≤ w.cap
  pub small : length bytes ≤ isize_max
  pub same : take v.len bytes ≡ take v.len bs
  pub fresh : IsFresh m'
  pub cells : m'.cell ≡ m.cell
  pub others :
      (b : ℕ) (ys : List ℕ) → b ≢ v.buf → m.block b ≡ some ys → (m'.block b ≡ some ys) × (b ≢ w.buf)

module _ (spare : ℕ → ℕ) where
  -- The block of a vector that holds `bs` with room for `needed`.
  abbrev pub vec_block : List ℕ → ℕ → List ℕ
  vec_block bs needed = bs ++ replicate (capacity_for spare needed - length bs) 0

  pub length-vec_block :
      (bs : List ℕ) (needed : ℕ)
      → length bs ≤ needed
      → needed ≤ isize_max
      → length (vec_block bs needed) ≡ capacity_for spare needed
  length-vec_block bs needed le small =
      let a = length-append bs (replicate (capacity_for spare needed - length bs) 0) in
      let b = length-replicate {A = ℕ} (capacity_for spare needed - length bs) 0 in omega arith

  pub vec_of-ok :
      (bs : List ℕ) (needed : ℕ) (m : Memory)
      → needed ≤ isize_max
      → vec_of spare bs needed m
        ≡ ok
            (record { buf = m.next; len = length bs; cap = capacity_for spare needed })
            (allocated m (vec_block bs needed))
  unfolding vec_of alloc
  vec_of-ok bs needed m small = let yes : leb needed isize_max ≡ true = ground arith in rw yes refl

  pub reserve-Grown :
      (m : Memory) (v : VecU8) (bs : List ℕ) (additional : ℕ)
      → IsFresh m
      → m.block v.buf ≡ some bs
      → v.cap ≡ length bs
      → v.len ≤ v.cap
      → length bs ≤ isize_max
      → v.len + additional ≤ isize_max
      → Returns (Grown m v bs (v.len + additional)) (reserve spare v additional m)
  unfolding reserve
  reserve-Grown m v bs additional fresh live cap le small small' =
      elim (Bool-cases (leb additional (v.cap - v.len))) [
        | inl fits ↦ rw fits (
            returns (record {
              bytes = bs;
              live = live;
              cap = cap;
              len = refl;
              room = ground arith;
              small = small;
              same = refl;
              fresh = fresh;
              cells = refl;
              others = λ b ys ne e. (e, ne);
            }))
        | inr over ↦
            let kept = take v.len bs in
            let yes : leb (v.len + additional) isize_max ≡ true = ground arith in
            let n : length kept ≡ v.len = omega (arith, length-take v.len bs) in
            let needed = v.len + additional in
            let m' = allocated m (vec_block kept needed) in
            let size = length-vec_block kept needed (omega arith) small' in
            let lt = live-lt m fresh v.buf bs live in
            let live' : m'.block v.buf ≡ some bs =
              update-ne m.block m.next v.buf _ (λ e. omega arith) ∙ live in
            rw
              (
                over,
                yes,
                block_at-ok m v.buf bs live,
                vec_of-ok kept needed m small',
                cap,
                dealloc-ok m' v.buf bs live',
              )
              (returns (record {
                bytes = vec_block kept needed;
                live =
                    update-ne m'.block v.buf m.next none (λ e. omega arith)
                    ∙ update_self m.block m.next _;
                cap = sym size;
                len = n;
                room = omega arith;
                small = omega arith;
                same =
                    take-append_le v.len kept _ (omega arith)
                    ∙ take-take_le v.len v.len bs (omega arith);
                fresh = IsFresh-set_block m' (IsFresh-alloc m fresh _) v.buf none (omega arith);
                cells = refl;
                others = λ b ys ne e.
                    let lt_b = live-lt m fresh b ys e in
                    (
                      update-ne m'.block v.buf b none ne
                          ∙ update-ne m.block m.next b _ (λ q. omega arith)
                          ∙ e,
                      λ q. omega arith,
                    );
              }))
      ]
