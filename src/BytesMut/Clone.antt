-- ===== src/BytesMut/Clone.antt =====
-- `shallow_clone` of bytes/src/bytes_mut.rs: two handles of one box.
use chiya.Prelude.{
  ℕ, suc, ◌+◌, ◌*◌, ◌/◌, ◌%◌, ◌≤◌, ◌≡◌, List, some, true, arith, ◌==◌, ◌||◌, leb, refl, false, inl,
  inr, length,
}
use mathlib.Core.Path.{subst}
use chiya.Memory.{VecU8, shared_v, Memory, ok, update, IsFresh, cell_at, set_cell, new_cell}
use chiya.Memory.Returns.{Returns, returns}
use chiya.Memory.Access.{update_self, cell-lt, IsFresh-set_cell, IsFresh-new_cell}
use chiya.BufMut.Vec.{isize_max}
use chiya.BytesMut.{
  BytesMut, shared_at, increment_shared, promote_to_shared, shallow_clone, rebuild_vec,
}
use chiya.BytesMut.Valid.{Valid}

abbrev pub set_box : ℕ → VecU8 → ℕ → ℕ → Memory → Memory
set_box a v r n m = record m { cell = update m.cell a (some (shared_v v r n)) }

pub shared_at-ok :
    (m : Memory) (a : ℕ) (v : VecU8) (r n : ℕ)
    → m.cell a ≡ some (shared_v v r n)
    → shared_at a m ≡ ok (v, r, n) m
unfolding shared_at cell_at
shared_at-ok m a v r n e = rw (e, shared_at, cell_at) refl

pub increment_shared-ok :
    (m : Memory) (a : ℕ) (v : VecU8) (r n : ℕ)
    → m.cell a ≡ some (shared_v v r n)
    → n ≤ isize_max
    → increment_shared a m ≡ ok tt (set_box a v r (n + 1) m)
unfolding increment_shared set_cell
increment_shared-ok m a v r n e le =
    let yes : leb n isize_max ≡ true = ground arith in rw (shared_at-ok m a v r n e) (rw yes refl)

-- The memory with the box of a vector.
abbrev pub boxed : Memory → BytesMut → ℕ → Memory
boxed m h n =
    set_box (m.next * 2)
      (record { buf = h.ptr.block; len = h.len + h.word / 32; cap = h.cap + h.word / 32 })
      (h.word / 4 % 8) n (record m { next = suc m.next })

pub promote_to_shared-ok :
    (m : Memory) (h : BytesMut) (n : ℕ)
    → h.word % 2 ≡ 1
    → h.word / 32 ≡ h.ptr.offset
    → 1 ≤ n
    → n ≤ 2
    → promote_to_shared n h m ≡ ok (record h { word = m.next * 2 }) (boxed m h n)
unfolding promote_to_shared new_cell rebuild_vec
promote_to_shared-ok m h n o w l u =
    let even : (m.next * 2 % 2 == 0) ≡ true = ground arith in
    let vec : (h.word % 2 == 1) ≡ true = ground arith in
    let count : (n == 1 || n == 2) ≡ true = ground arith in
    let whole : (h.ptr.offset == h.word / 32) ≡ true = ground arith in
    rw (vec, count, whole, even) refl

pub promote_to_shared-Valid :
    (m : Memory) (h : BytesMut) (bs : List ℕ) (n : ℕ) {k : ℕ}
    → Valid m h bs k
    → h.word / 32 ≡ h.ptr.offset
    → length bs ≡ h.ptr.offset + h.cap
    → 1 ≤ n
    → Valid (boxed m h n) (record h { word = m.next * 2 }) bs n
promote_to_shared-Valid m h bs n v w c l = record {
  live = v.live;
  inside = v.inside;
  len_le = v.len_le;
  small = v.small;
  form = inr (
    omega arith,
    record { buf = h.ptr.block; len = h.len + h.word / 32; cap = h.cap + h.word / 32 },
    h.word / 4 % 8,
    update_self m.cell (m.next * 2) _,
    refl,
    omega arith,
    omega arith,
    l,
  );
}

-- Two handles alike on what the one was on, with one handle more counted.
pub record Twins (m : Memory) (h : BytesMut) (bs : List ℕ) (n : ℕ) (p : BytesMut × BytesMut)
    (m' : Memory) : Type 0 where
  pub alike : p.1 ≡ p.0
  pub place : p.0 ≡ record h { word = p.0.word }
  pub fresh : IsFresh m'
  pub kept : m'.block ≡ m.block
  pub even : p.0.word % 2 ≡ 0
  pub valid : Valid m' p.0 bs (n + 1)

pub shallow_clone-Twins :
    (m : Memory) (h : BytesMut) (bs : List ℕ) (n : ℕ)
    → IsFresh m
    → Valid m h bs n
    → n ≤ isize_max
    → Returns (Twins m h bs n) (shallow_clone h m)
unfolding shallow_clone
shallow_clone-Twins m h bs n fresh v le = elim v.form [
  | inl (odd, small, offset, all, one) ↦
      let no : (h.word % 2 == 0) ≡ false = ground arith in
      let two : 2 ≡ n + 1 = omega arith in
      rw (no, promote_to_shared-ok m h 2 odd offset (ground arith) (ground arith))
        (returns (record {
          alike = refl;
          place = refl;
          fresh = IsFresh-new_cell m fresh _;
          kept = refl;
          even = omega arith;
          valid =
              subst (λ k. Valid (boxed m h 2) (record h { word = m.next * 2 }) bs k) two
                (promote_to_shared-Valid m h bs 2 v offset all (ground arith));
        }))
  | inr (even, vec, repr, box, buf, cap, small, pos) ↦
      let yes : (h.word % 2 == 0) ≡ true = ground arith in
      rw (yes, increment_shared-ok m h.word vec repr n box le)
        (returns (record {
          alike = refl;
          place = refl;
          fresh = IsFresh-set_cell m fresh h.word _ (cell-lt m fresh h.word _ box);
          kept = refl;
          even = even;
          valid = record {
            live = v.live;
            inside = v.inside;
            len_le = v.len_le;
            small = v.small;
            form = inr (even, vec, repr, update_self m.cell h.word _, buf, cap, small, omega arith);
          };
        }))
]
