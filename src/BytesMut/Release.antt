-- ===== src/BytesMut/Release.antt =====
-- The drop of a `BytesMut` (bytes/src/bytes_mut.rs).
use chiya.Prelude.{
  ℕ, ◌+◌, ◌-◌, ◌/◌, ◌%◌, ◌≤◌, ◌≡◌, ◌≢◌, List, length, some, none, true, arith, ◌==◌, refl, false,
  inl, inr, ◌∙◌, sym, ap,
}
use chiya.Memory.{shared_v, Memory, update, IsFresh, set_cell}
use chiya.Memory.Vec.{free_vec}
use chiya.Memory.Access.{
  update_self, update-ne, cell-lt, live-lt, dealloc-ok, IsFresh-set_cell, IsFresh-set_block,
}
use chiya.Memory.Reserve.{allocated}
use chiya.Memory.Returns.{Returns, returns}
use chiya.BytesMut.{BytesMut, release, release_shared, rebuild_vec}
use chiya.BytesMut.Valid.{Valid}
use chiya.BytesMut.Clone.{shared_at-ok}

pub Valid-pos : (m : Memory) (h : BytesMut) (bs : List ℕ) (n : ℕ) → Valid m h bs n → 1 ≤ n
Valid-pos m h bs n v = elim v.form [
  | inl (_, _, _, _, one) ↦ omega arith
  | inr (_, _, _, _, _, _, _, pos) ↦ pos
]

-- What is allocated elsewhere leaves a handle as it was.
pub Valid-allocated :
    (m : Memory) (h : BytesMut) (bs ys : List ℕ) (n : ℕ)
    → IsFresh m
    → Valid m h bs n
    → Valid (allocated m ys) h bs n
Valid-allocated m h bs ys n fresh v = record {
  live =
      update-ne m.block m.next h.ptr.block (some ys)
        (λ e. let lt = live-lt m fresh h.ptr.block bs v.live in omega arith)
      ∙ v.live;
  inside = v.inside;
  len_le = v.len_le;
  small = v.small;
  form = v.form;
}

-- One handle less is counted; nothing is freed.
pub record Dropped (m : Memory) (h : BytesMut) (bs : List ℕ) (n : ℕ) (m' : Memory) : Type 0 where
  pub fresh : IsFresh m'
  pub kept : m'.block ≡ m.block
  pub others :
      (g : BytesMut)
      → Valid m g bs (n + 1)
      → g.word ≡ h.word
      → g.ptr.block ≡ h.ptr.block
      → Valid m' g bs n

pub release_shared-Dropped :
    (m : Memory) (h : BytesMut) (bs : List ℕ) (n : ℕ)
    → IsFresh m
    → Valid m h bs (n + 1)
    → 1 ≤ n
    → Returns (λ _ m'. Dropped m h bs n m') (release_shared h.word m)
unfolding release_shared set_cell
release_shared-Dropped m h bs n fresh v pos = elim v.form [
  | inl (_, _, _, _, one) ↦ absurd (omega arith)
  | inr (even, vec, repr, box, buf, whole, small, _) ↦
      let more : (n + 1 == 1) ≡ false = ground arith in
      rw (shared_at-ok m h.word vec repr (n + 1) box, more)
        (returns (record {
          fresh = IsFresh-set_cell m fresh h.word _ (cell-lt m fresh h.word _ box);
          kept = refl;
          others = λ g w e f.
              let box' : update m.cell h.word (some (shared_v vec repr (n + 1 - 1))) g.word
                  ≡ some (shared_v vec repr n) =
                rw e (
                  update_self m.cell h.word _
                  ∙ ap (λ k. some (shared_v vec repr k)) (omega arith)) in
              record {
                live = w.live;
                inside = w.inside;
                len_le = w.len_le;
                small = w.small;
                form = inr (omega arith, vec, repr, box', buf ∙ sym f, whole, small, pos);
              };
        }))
]

pub release-Dropped :
    (m : Memory) (h : BytesMut) (bs : List ℕ) (n : ℕ)
    → IsFresh m
    → Valid m h bs (n + 1)
    → 1 ≤ n
    → Returns (λ _ m'. Dropped m h bs n m') (release h m)
unfolding release
release-Dropped m h bs n fresh v pos = elim v.form [
  | inl (_, _, _, _, one) ↦ absurd (omega arith)
  | inr (even, _, _, _, _, _, _, _) ↦
      let arc : (h.word % 2 == 1) ≡ false = ground arith in
      rw arc (release_shared-Dropped m h bs n fresh v pos)
]

-- What the release of the last handle leaves: the block is freed, and no other.
pub record Freed (m : Memory) (h : BytesMut) (m' : Memory) : Type 0 where
  pub fresh : IsFresh m'
  pub gone : m'.block h.ptr.block ≡ none
  pub others : (b : ℕ) → b ≢ h.ptr.block → m'.block b ≡ m.block b
  pub boxes : (a : ℕ) → a ≢ h.word → m'.cell a ≡ m.cell a

-- In a memory in which nothing is allocated past `next`, the drop of a valid handle that is the
-- only one of its block returns and frees the block; it leaves every other block, and every box
-- but its own.
pub release-Freed :
    (m : Memory) (h : BytesMut) (bs : List ℕ)
    → IsFresh m
    → Valid m h bs 1
    → Returns (λ _ m'. Freed m h m') (release h m)
unfolding release release_shared set_cell rebuild_vec free_vec
release-Freed m h bs fresh v = elim v.form [
  | inl (odd, _, offset, all, one) ↦
      let vec : (h.word % 2 == 1) ≡ true = ground arith in
      let front : (h.ptr.offset == h.word / 32) ≡ true = ground arith in
      let size : h.cap + h.word / 32 ≡ length bs = omega arith in
      rw (vec, front, size, dealloc-ok m h.ptr.block bs v.live)
        (returns (record {
          fresh =
              IsFresh-set_block m fresh h.ptr.block none (live-lt m fresh h.ptr.block bs v.live);
          gone = update_self m.block h.ptr.block none;
          others = λ b ne. update-ne m.block h.ptr.block b none ne;
          boxes = λ a ne. refl;
        }))
  | inr (even, vec, repr, box, buf, whole, small, _) ↦
      let arc : (h.word % 2 == 1) ≡ false = ground arith in
      rw
        (
          arc,
          shared_at-ok m h.word vec repr 1 box,
          buf,
          whole,
          dealloc-ok (record m { cell = update m.cell h.word none }) h.ptr.block bs v.live,
        )
        (returns (record {
          fresh =
              IsFresh-set_block (record m { cell = update m.cell h.word none })
                (IsFresh-set_cell m fresh h.word none (cell-lt m fresh h.word _ box)) h.ptr.block
                none (live-lt m fresh h.ptr.block bs v.live);
          gone = update_self m.block h.ptr.block none;
          others = λ b ne. update-ne m.block h.ptr.block b none ne;
          boxes = λ a ne. update-ne m.cell h.word a none ne;
        }))
]
