-- ===== src/Bytes/Lifetime.antt =====
-- When the buffer of a `Bytes` is freed (bytes/src/bytes.rs).
use chiya.Prelude.{
  ℕ, suc, ◌+◌, ◌*◌, ◌%◌, ◌≡◌, ◌≢◌, true, false, List, length, ◌==◌, some, none, refl, arith,
}
use chiya.Memory.{
  Ptr, shared, Memory, ok, undefined, update, Eff, ◌>>=◌, ◌>>◌, cell_at, set_cell, new_cell,
}
use chiya.Memory.Access.{update_self, update-ne, dealloc-ok}
use chiya.Memory.Returns.{Returns, returns}
use chiya.Bytes.{
  Bytes, Vtable, static_vtable, owned_vtable, promotable_even_vtable, promotable_odd_vtable,
  shared_vtable, shared_v_vtable, buffer, boxed,
}
use chiya.Bytes.Tables.{
  shared_at, offset_from, shallow_clone_vec, promotable_clone, promotable_drop, release_shared,
  clone, release,
}
use chiya.Bytes.Split.{is_promotable}
use chiya.Bytes.Views.{shared_at-ok, shallow_clone_arc-ok}

-- A handle is copied, then the copy and the handle are dropped.
abbrev pub copy_and_drop : (ℕ → Eff (Unit {0})) → Bytes → Eff (Unit {0})
copy_and_drop drop_owner b = do
  (self, copy) ← clone b
  release drop_owner copy
  release drop_owner self

shared_at-gone : (m : Memory) (a : ℕ) → m.cell a ≡ none → shared_at a m ≡ undefined
unfolding shared_at cell_at
shared_at-gone m a e = rw (e, shared_at, cell_at) refl

release_shared-gone : (m : Memory) (a : ℕ) → m.cell a ≡ none → release_shared a m ≡ undefined
unfolding release_shared
release_shared-gone m a e = rw (shared_at-gone m a e) refl

-- The box, and with it the buffer, of a count of one.
release_shared-last :
    (m : Memory) (a buf cap : ℕ) (bs : List ℕ)
    → m.cell a ≡ some (shared buf cap 1)
    → m.block buf ≡ some bs
    → cap ≡ length bs
    → release_shared a m
      ≡ ok tt (record m { cell = update m.cell a none; block = update m.block buf none })
unfolding release_shared set_cell
release_shared-last m a buf cap bs box live e =
    rw
      (
        shared_at-ok m a buf cap 1 box,
        e,
        dealloc-ok (record m { cell = update m.cell a none }) buf bs live,
      )
      refl

release_shared-more :
    (m : Memory) (a buf cap : ℕ)
    → m.cell a ≡ some (shared buf cap 2)
    → release_shared a m ≡ ok tt (record m { cell = update m.cell a (some (shared buf cap 1)) })
unfolding release_shared set_cell
release_shared-more m a buf cap box = rw (shared_at-ok m a buf cap 2 box) refl

module _ (drop_owner : ℕ → Eff (Unit {0})) (m : Memory) (ptr : Ptr) (len : ℕ) where
  -- Where a `Bytes` of the shared table is the only handle of its box and of its live buffer, a
  -- clone of it, the drop of the clone and the drop of the handle do what is undefined: the clone
  -- is not counted, so that its drop frees the box that the other then reads.
  pub shared-copy_and_drop :
      (a buf cap : ℕ) (bs : List ℕ)
      → m.cell a ≡ some (shared buf cap 1)
      → m.block buf ≡ some bs
      → cap ≡ length bs
      → copy_and_drop drop_owner
          (record { ptr = ptr; len = len; data_ptr = boxed a; vtable = shared_vtable })
          m
        ≡ undefined
  unfolding clone release
  shared-copy_and_drop a buf cap bs box live whole =
      let m' : Memory = record m { cell = update m.cell a none; block = update m.block buf none } in
      rw
        (
          shallow_clone_arc-ok m a buf cap 1 ptr len box (omega arith),
          release_shared-last m a buf cap bs box live whole,
        )
        (release_shared-gone m' a (update_self m.cell a none))

-- The block `buf` is freed, and no other.
abbrev pub FreesOnly : ℕ → Memory → Memory → Type 0
FreesOnly buf m m' = (m'.block buf ≡ none) × ((k : ℕ) → k ≢ buf → m'.block k ≡ m.block k)

module _ (drop_owner : ℕ → Eff (Unit {0})) (m : Memory) (ptr : Ptr) (len w : ℕ) (bs : List ℕ)
    (odd : w % 2 ≡ 1) (live : m.block ptr.block ≡ some bs)
    (whole : ptr.offset + len ≡ length bs) where
  abbrev cap : ℕ
  cap = ptr.offset + len

  abbrev box : ℕ
  box = m.next * 2

  -- The memory with the box of two handles, and of one.
  abbrev two : Memory
  two = record m { next = suc m.next; cell = update m.cell box (some (shared ptr.block cap 2)) }

  abbrev one : Memory
  one = record two { cell = update two.cell box (some (shared ptr.block cap 1)) }

  tagged-clone :
      promotable_clone (buffer ptr.block w) ptr len m
      ≡ ok
          (boxed box, record { ptr = ptr; len = len; data_ptr = boxed box; vtable = shared_vtable })
          two
  unfolding promotable_clone shallow_clone_vec offset_from new_cell
  tagged-clone =
      let vec : (w % 2 == 0) ≡ false = ground arith in
      let tag : (w % 2 == 1) ≡ true = ground arith in
      let here : (ptr.block == ptr.block) ≡ true = ground arith in
      let even : (m.next * 2 % 2 == 0) ≡ true = ground arith in rw (vec, tag) (rw (here, even) refl)

  -- The copy goes, and the promoted handle after it.
  tagged-drops :
      Returns
        (λ _ m'. FreesOnly ptr.block m m')
        ((release_shared box >> promotable_drop (boxed box) ptr len) two)
  unfolding promotable_drop
  tagged-drops =
      let even : (m.next * 2 % 2 == 0) ≡ true = ground arith in
      rw (release_shared-more two box ptr.block cap (update_self m.cell box _)) (
        rw
          (
            even,
            release_shared-last one box ptr.block cap bs (update_self two.cell box _) live whole,
          )
          (returns
            (update_self m.block ptr.block none, λ k ne. update-ne m.block ptr.block k none ne)))

  -- Where a `Bytes` of a promotable table has a tagged pointer to its live buffer, of which it is
  -- the end, a clone of it, the drop of the clone and the drop of the handle return, and free the
  -- buffer and no other block.
  pub promotable-copy_and_drop :
      (t : Vtable)
      → is_promotable t ≡ true
      → Returns
          (λ _ m'. FreesOnly ptr.block m m')
          (copy_and_drop drop_owner
            (record { ptr = ptr; len = len; data_ptr = buffer ptr.block w; vtable = t })
            m)
  unfolding is_promotable clone release
  promotable-copy_and_drop static_vtable e = cc
  promotable-copy_and_drop owned_vtable e = cc
  promotable-copy_and_drop promotable_even_vtable e = rw tagged-clone tagged-drops
  promotable-copy_and_drop promotable_odd_vtable e = rw tagged-clone tagged-drops
  promotable-copy_and_drop shared_vtable e = cc
  promotable-copy_and_drop shared_v_vtable e = cc
