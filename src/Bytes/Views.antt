-- ===== src/Bytes/Views.antt =====
-- What a `Bytes` and its parts show (bytes/src/bytes.rs).
use chiya.Prelude.{
  ℕ, ◌+◌, ◌-◌, ◌*◌, ◌%◌, ◌≤◌, ◌≡◌, ◌⊎◌, inl, inr, true, false, List, [], length, take, drop, ◌==◌,
  leb, some, refl, sym, ap, ◌∙◌, arith, Bool-cases, drop-drop, length-take, length-drop,
}
use chiya.Memory.{Ptr, add, VecU8, shared, shared_v, owned, Memory, ok, cell_at, set_cell, new_cell}
use chiya.Memory.Access.{read-ok}
use chiya.Memory.Windows.{take-take_le, drop-take}
use chiya.Memory.Returns.{Returns, returns, Returns-and_then}
use chiya.BufMut.Vec.{isize_max}
use chiya.BytesMut.Clone.{increment_shared-ok}
use chiya.Bytes.{
  Bytes, Vtable, static_vtable, owned_vtable, promotable_even_vtable, promotable_odd_vtable,
  shared_vtable, shared_v_vtable, Data, buffer, boxed, slice_at, from_static,
}
use chiya.Bytes.Tables.{
  shared_at, owned_at, offset_from, shallow_clone_arc, shallow_clone_vec, promotable_clone,
  owned_clone, shared_v_clone, clone,
}

-- A counted box of bytes.rs.
abbrev pub IsBoxed : Memory → Data → Type 0
IsBoxed m d =
    (a : ℕ) × (buf : ℕ) × (cap : ℕ) × (n : ℕ) × (d ≡ boxed a)
    × (a % 2 ≡ 0)
    × (m.cell a ≡ some (shared buf cap n))
    × (n ≤ isize_max)

-- A buffer of its own that is not boxed yet, with its tag.
abbrev pub IsTagged : Ptr → Data → Type 0
IsTagged p d = (w : ℕ) × (d ≡ buffer p.block w) × (w % 2 ≡ 1)

-- What keeps the memory of a handle alive, by its table.
abbrev pub Backs : Memory → Ptr → Data → Vtable → Type 0
Backs m p d static_vtable = Unit {0}
Backs m p d owned_vtable =
    (a : ℕ) × (n : ℕ) × (d ≡ boxed a) × (m.cell a ≡ some (owned n)) × (n ≤ isize_max)
Backs m p d promotable_even_vtable = IsTagged p d ⊎ IsBoxed m d
Backs m p d promotable_odd_vtable = IsTagged p d ⊎ IsBoxed m d
Backs m p d shared_vtable = IsBoxed m d
Backs m p d shared_v_vtable =
    (a : ℕ) × (n : ℕ) × (repr : ℕ) × (v : VecU8) × (d ≡ boxed a)
    × (m.cell a ≡ some (shared_v v repr n))
    × (n ≤ isize_max)

-- In `m` the handle shows `xs`.
pub record Views (m : Memory) (ptr : Ptr) (len : ℕ) (xs : List ℕ) : Type 0 where
  pub bytes : List ℕ
  pub live : m.block ptr.block ≡ some bytes
  pub inside : ptr.offset + len ≤ length bytes
  pub shows : take len (drop ptr.offset bytes) ≡ xs

-- Two handles on what the one was on, and no byte changed.
pub record Copies (m : Memory) (b : Bytes) (p : Bytes × Bytes) (m' : Memory) : Type 0 where
  pub ptr : p.0.ptr ≡ b.ptr
  pub len : p.0.len ≡ b.len
  pub copy_ptr : p.1.ptr ≡ b.ptr
  pub copy_len : p.1.len ≡ b.len
  pub kept : m'.block ≡ m.block

pub shared_at-ok :
    (m : Memory) (a buf cap n : ℕ)
    → m.cell a ≡ some (shared buf cap n)
    → shared_at a m ≡ ok (buf, cap, n) m
unfolding shared_at cell_at
shared_at-ok m a buf cap n e = rw (e, shared_at, cell_at) refl

owned_at-ok : (m : Memory) (a n : ℕ) → m.cell a ≡ some (owned n) → owned_at a m ≡ ok n m
unfolding owned_at cell_at
owned_at-ok m a n e = rw (e, owned_at, cell_at) refl

pub shallow_clone_arc-ok :
    (m : Memory) (a buf cap n : ℕ) (ptr : Ptr) (len : ℕ)
    → m.cell a ≡ some (shared buf cap n)
    → n ≤ isize_max
    → shallow_clone_arc a ptr len m
      ≡ ok (record { ptr = ptr; len = len; data_ptr = boxed a; vtable = shared_vtable }) m
unfolding shallow_clone_arc
shallow_clone_arc-ok m a buf cap n ptr len e le =
    let few : leb n isize_max ≡ true = ground arith in
    rw (shared_at-ok m a buf cap n e) (rw few refl)

-- As many bytes, at the same place.
abbrev pub Same : Memory → Ptr → ℕ → Data × Bytes → Memory → Type 0
Same m ptr len p m' = (p.1.ptr ≡ ptr) × (p.1.len ≡ len) × (m'.block ≡ m.block)

pub promotable_clone-Same :
    (m : Memory) (ptr : Ptr) (len : ℕ) (d : Data)
    → IsTagged ptr d ⊎ IsBoxed m d
    → Returns (Same m ptr len) (promotable_clone d ptr len m)
unfolding promotable_clone shallow_clone_vec offset_from new_cell
promotable_clone-Same m ptr len d (inl (w, e, odd)) =
    let vec : (w % 2 == 0) ≡ false = ground arith in
    let tag : (w % 2 == 1) ≡ true = ground arith in
    let here : (ptr.block == ptr.block) ≡ true = ground arith in
    let even : (m.next * 2 % 2 == 0) ≡ true = ground arith in
    rw e (rw (vec, tag) (rw (here, even) (returns (refl, refl, refl))))
promotable_clone-Same m ptr len d (inr (a, buf, cap, n, e, even, box, few)) =
    let arc : (a % 2 == 0) ≡ true = ground arith in
    rw e (rw (arc, shallow_clone_arc-ok m a buf cap n ptr len box few) (returns (refl, refl, refl)))

pub slice_at-ok :
    (m : Memory) (ptr : Ptr) (len : ℕ) (xs : List ℕ)
    → Views m ptr len xs
    → slice_at ptr len m ≡ ok xs m
unfolding slice_at
slice_at-ok m ptr len xs v = elim (Bool-cases (len == 0)) [
  | inl none_there ↦
      let zero : len ≡ 0 = ground arith in
      let e : [] ≡ xs = sym (ap (λ k. take k (drop ptr.offset v.bytes)) zero) ∙ v.shows in
      rw none_there (ap (λ k. ok k m) e)
  | inr some_there ↦
      rw (some_there, read-ok m ptr len v.bytes v.live v.inside) (ap (λ k. ok k m) v.shows)
]

pub Views-length :
    (m : Memory) (ptr : Ptr) (len : ℕ) (xs : List ℕ) → Views m ptr len xs → length xs ≡ len
Views-length m ptr len xs v =
    let n = length-take len (drop ptr.offset v.bytes) in
    let d = length-drop ptr.offset v.bytes in
    let same = ap length v.shows in let inside = v.inside in omega arith

clone-parts :
    (m : Memory) (ptr : Ptr) (len : ℕ) (d : Data) (t : Vtable) (xs : List ℕ)
    → Views m ptr len xs
    → Backs m ptr d t
    → Returns
        (Copies m (record { ptr = ptr; len = len; data_ptr = d; vtable = t }))
        (clone (record { ptr = ptr; len = len; data_ptr = d; vtable = t }) m)
unfolding clone from_static owned_clone shared_v_clone set_cell
clone-parts m ptr len d static_vtable xs v b =
    let n = Views-length m ptr len xs v in
    rw (slice_at-ok m ptr len xs v)
      (returns (record { ptr = refl; len = refl; copy_ptr = refl; copy_len = n; kept = refl }))
clone-parts m ptr len d owned_vtable xs v (a, n, e, box, few) =
    let fits : leb n isize_max ≡ true = ground arith in
    rw e (
      rw (owned_at-ok m a n box, fits)
        (returns
          (record { ptr = refl; len = refl; copy_ptr = refl; copy_len = refl; kept = refl })))
clone-parts m ptr len d promotable_even_vtable xs v b =
    Returns-and_then (promotable_clone-Same m ptr len d b) (λ p m' (p_ptr, p_len, kept).
      returns (record { ptr = refl; len = refl; copy_ptr = p_ptr; copy_len = p_len; kept = kept }))
clone-parts m ptr len d promotable_odd_vtable xs v b =
    Returns-and_then (promotable_clone-Same m ptr len d b) (λ p m' (p_ptr, p_len, kept).
      returns (record { ptr = refl; len = refl; copy_ptr = p_ptr; copy_len = p_len; kept = kept }))
clone-parts m ptr len d shared_vtable xs v (a, buf, cap, n, e, even, box, few) = rw e (
    rw (shallow_clone_arc-ok m a buf cap n ptr len box few)
      (returns (record { ptr = refl; len = refl; copy_ptr = refl; copy_len = refl; kept = refl })))
clone-parts m ptr len d shared_v_vtable xs v (a, n, repr, vec, e, box, few) = rw e (
    rw (increment_shared-ok m a vec repr n box few)
      (returns (record { ptr = refl; len = refl; copy_ptr = refl; copy_len = refl; kept = refl })))

-- A handle that shows `xs`, and whose memory its table keeps.
pub record Good (m : Memory) (b : Bytes) (xs : List ℕ) : Type 0 where
  pub views : Views m b.ptr b.len xs
  pub backs : Backs m b.ptr b.data_ptr b.vtable

pub clone-Copies :
    (m : Memory) (b : Bytes) (xs : List ℕ) → Good m b xs → Returns (Copies m b) (clone b m)
clone-Copies m b xs g = clone-parts m b.ptr b.len b.data_ptr b.vtable xs g.views g.backs

-- A part of a view, where the blocks are as before.
pub part-Views :
    (m m' : Memory) (ptr : Ptr) (len : ℕ) (xs : List ℕ) (start count : ℕ) (ptr' : Ptr)
    → Views m ptr len xs
    → m'.block ≡ m.block
    → ptr' ≡ add ptr start
    → start + count ≤ len
    → Views m' ptr' count (take count (drop start xs))
part-Views m m' ptr len xs start count ptr' v kept e le =
    let inside = v.inside in
    let offset : ptr'.offset ≡ ptr.offset + start = ap (λ p. p.offset) e in
    let block : ptr'.block ≡ ptr.block = ap (λ p. p.block) e in
    record {
      bytes = v.bytes;
      live = ap m'.block block ∙ ap (λ f. f ptr.block) kept ∙ v.live;
      inside = omega arith;
      shows =
          ap (λ k. take count (drop k v.bytes)) offset
          ∙ ap (take count) (sym (drop-drop ptr.offset start v.bytes))
          ∙ sym (
              take-take_le count (len - start) (drop start (drop ptr.offset v.bytes)) (omega arith))
          ∙ ap (take count)
              (drop-take start len (drop ptr.offset v.bytes) ∙ ap (drop start) v.shows);
    }
