-- ===== src/Stack.antt =====
-- `SysStack` of coroutine/src/stack/sys_stack.rs. The sizes of the platform and the two system calls
-- of coroutine/src/stack/unix/mod.rs are arguments.
pub mod Footprint
mod Tests
use native.Mathlib.Nat.{mod-lt}
use chiya.Prelude.{
  ℕ, ◌+◌, ◌-◌, ◌*◌, ◌%◌, ◌^◌, ◌≤◌, ◌<◌, ◌≡◌, ◌⊎◌, refl, ap, Bool, true, false, ◌&&◌, ltb, leb,
  if◌then◌else◌, arith, Bool-cases, inl, inr, Option, none, some, Outcome, value, panic, ◌>>=◌,
  ◌>>◌, assert, max,
}

pub record SysStack : Type 0 where
  pub top : ℕ
  pub bottom : ℕ

-- `Result<SysStack, StackError>`
pub data StackResult : Type 0 where
  ok : SysStack → StackResult
  io_error : StackResult
  exceeds_maximum_size : ℕ → StackResult

-- `x & !(page_size - 1)`, where the page size is a power of two.
abbrev pub clear_offset : ℕ → ℕ → ℕ
clear_offset page_size x = x - x % page_size

-- The pages to add, shifted by `protected`.
abbrev pub added_pages : ℕ → Bool → ℕ
added_pages page_size true = page_size * 2
added_pages page_size false = page_size

module _ (allocate_stack : ℕ → Option SysStack) (protect_stack : SysStack → Option SysStack)
    (page_size min_stack_size max_stack_size : ℕ) where
  -- The two system calls, at the size that they get.
  unfoldable pub allocate_pages : ℕ → Bool → StackResult
  allocate_pages size protected = elim (allocate_stack size) [
    | none ↦ io_error
    | some stack ↦
        if protected
        then (elim (protect_stack stack) [ none ↦ io_error | some stack' ↦ ok stack' ])
        else ok stack
  ]

  pub allocate : ℕ → Bool → Outcome StackResult
  allocate size protected =
      let add = added_pages page_size protected in
      let at_least = if ltb size min_stack_size then min_stack_size else size in
      (do
        assert (leb 1 at_least)
        let size' = clear_offset page_size (at_least - 1) + add
        if ltb size' (2 ^ 64) && leb size' max_stack_size
            then value (allocate_pages size' protected)
            else (do
              assert (leb add max_stack_size)
              value (exceeds_maximum_size (max_stack_size - add))))

least_size : (size lo : ℕ) → (if ltb size lo then lo else size) ≡ max size lo
least_size size lo = ground arith

added_pages_ge : (page : ℕ) (protected : Bool) → page ≤ added_pages page protected
added_pages_ge page true = omega arith
added_pages_ge page false = omega arith

added_pages_le : (page : ℕ) (protected : Bool) → added_pages page protected ≤ page * 2
added_pages_le page true = omega arith
added_pages_le page false = omega arith

-- For a page size and a least size that are not 0, and a greatest size of at least two pages and
-- below 2^64, `allocate` does not panic. Either it maps `n` bytes, at most the greatest size,
-- fewer than the larger of `size` and the least size together with the added pages, and fewer by a
-- page at most; or that sum is over the greatest size, and it returns `ExceedsMaximumSize` with
-- the greatest size less the added pages.
pub allocate-size :
    (allocate_stack : ℕ → Option SysStack) (protect_stack : SysStack → Option SysStack)
    (page_size min_stack_size max_stack_size size : ℕ) (protected : Bool)
    → 1 ≤ page_size
    → 1 ≤ min_stack_size
    → page_size * 2 ≤ max_stack_size
    → max_stack_size < 2 ^ 64
    → let run = allocate allocate_stack protect_stack page_size min_stack_size max_stack_size in
      let add = added_pages page_size protected in
      let least = max size min_stack_size in
      ((n : ℕ) × (run size protected
          ≡ value (
              allocate_pages allocate_stack protect_stack page_size min_stack_size max_stack_size n
                protected))
        × (least + add ≤ n + page_size)
        × (n < least + add)
        × (n ≤ max_stack_size))
      ⊎ ((max_stack_size < least + add)
          × (run size protected ≡ value (exceeds_maximum_size (max_stack_size - add))))
unfolding allocate
allocate-size alloc protect page lo hi size protected p l h w =
    let add = added_pages page protected in
    let least = max size lo in
    let ge = added_pages_ge page protected in
    let le = added_pages_le page protected in
    let rest = mod-lt (least - 1) p in
    let same = least_size size lo in
    let size' = clear_offset page (least - 1) + add in
    let positive : leb 1 least ≡ true = ground arith in
    let room : leb add hi ≡ true = ground arith in
    elim (Bool-cases (ltb size' (2 ^ 64) && leb size' hi)) [
      | inl fits ↦ inl (size', rw (same, positive, fits), omega arith, ground arith, ground arith)
      | inr over ↦ inr (ground arith, rw (same, positive, over, room))
    ]
