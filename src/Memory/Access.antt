-- ===== src/Memory/Access.antt =====
-- What the primitives of the memory do where they are allowed, and what stays free.
use chiya.Prelude.{
  ℕ, suc, ◌+◌, ◌*◌, ◌≤◌, ◌<◌, ◌≡◌, ◌≢◌, refl, ◌∙◌, true, false, List, ◌++◌, length, take, drop, leb,
  ◌==◌, Option, none, some, arith, dec_lt,
}
use chiya.Memory.{Ptr, Cell, Memory, ok, update, IsFresh, read, write, dealloc, block_at, set_block}

pub update_self : {A : Type 0} (f : ℕ → Option A) (k : ℕ) (v : Option A) → update f k v k ≡ v
update_self f k v = let yes : (k == k) ≡ true = ground arith in rw yes refl

pub update-ne :
    {A : Type 0} (f : ℕ → Option A) (k i : ℕ) (v : Option A) → i ≢ k → update f k v i ≡ f i
update-ne f k i v ne = let no : (i == k) ≡ false = ground arith in rw no refl

-- The bytes of a block of which those from `i` on are overwritten by `src`.
abbrev pub splice : ℕ → List ℕ → List ℕ → List ℕ
splice i src bs = take i bs ++ (src ++ drop (i + length src) bs)

pub block_at-ok : (m : Memory) (b : ℕ) (bs : List ℕ) → m.block b ≡ some bs → block_at b m ≡ ok bs m
unfolding block_at
block_at-ok m b bs e = rw (e, block_at) refl

pub read-ok :
    (m : Memory) (p : Ptr) (len : ℕ) (bs : List ℕ)
    → m.block p.block ≡ some bs
    → p.offset + len ≤ length bs
    → read p len m ≡ ok (take len (drop p.offset bs)) m
unfolding read
read-ok m p len bs e le =
    let yes : leb (p.offset + len) (length bs) ≡ true = ground arith in
    rw (block_at-ok m p.block bs e) (rw yes refl)

pub write-ok :
    (m : Memory) (p : Ptr) (src bs : List ℕ)
    → m.block p.block ≡ some bs
    → p.offset + length src ≤ length bs
    → write p src m
      ≡ ok tt (record m { block = update m.block p.block (some (splice p.offset src bs)) })
unfolding write set_block
write-ok m p src bs e le =
    let yes : leb (p.offset + length src) (length bs) ≡ true = ground arith in
    rw (block_at-ok m p.block bs e) (rw yes refl)

pub dealloc-ok :
    (m : Memory) (b : ℕ) (bs : List ℕ)
    → m.block b ≡ some bs
    → dealloc b (length bs) m ≡ ok tt (record m { block = update m.block b none })
unfolding dealloc set_block
dealloc-ok m b bs e =
    let yes : (length bs == length bs) ≡ true = ground arith in
    rw (block_at-ok m b bs e) (rw yes refl)

module _ (m : Memory) (fresh : IsFresh m) where
  pub live-lt : (b : ℕ) (bs : List ℕ) → m.block b ≡ some bs → b < m.next
  live-lt b bs e = elim (dec_lt b m.next) [
    | yes lt ↦ lt
    | no ge ↦ (let gone = fresh.no_block b (omega arith) in cc)
  ]

  pub cell-lt : (a : ℕ) (c : Cell) → m.cell a ≡ some c → a < m.next * 2
  cell-lt a c e = elim (dec_lt a (m.next * 2)) [
    | yes lt ↦ lt
    | no ge ↦ (let gone = fresh.no_cell a (omega arith) in cc)
  ]

  pub IsFresh-alloc :
      (bs : List ℕ)
      → IsFresh (record m { next = suc m.next; block = update m.block m.next (some bs) })
  IsFresh-alloc bs = record {
    no_block = λ k le.
        update-ne m.block m.next k (some bs) (λ e. omega arith) ∙ fresh.no_block k (omega arith);
    no_cell = λ k le. fresh.no_cell k (omega arith);
  }

  pub IsFresh-new_cell :
      (c : Cell)
      → IsFresh (record m { next = suc m.next; cell = update m.cell (m.next * 2) (some c) })
  IsFresh-new_cell c = record {
    no_block = λ k le. fresh.no_block k (omega arith);
    no_cell = λ k le.
        update-ne m.cell (m.next * 2) k (some c) (λ e. omega arith) ∙ fresh.no_cell k (omega arith);
  }

  pub IsFresh-set_cell :
      (a : ℕ) (v : Option Cell) → a < m.next * 2 → IsFresh (record m { cell = update m.cell a v })
  IsFresh-set_cell a v lt = record {
    no_block = λ k le. fresh.no_block k le;
    no_cell = λ k le. update-ne m.cell a k v (λ e. omega arith) ∙ fresh.no_cell k le;
  }

  pub IsFresh-set_block :
      (b : ℕ) (v : Option (List ℕ)) → b < m.next → IsFresh (record m { block = update m.block b v })
  IsFresh-set_block b v lt = record {
    no_block = λ k le. update-ne m.block b k v (λ e. omega arith) ∙ fresh.no_block k le;
    no_cell = λ k le. fresh.no_cell k le;
  }
