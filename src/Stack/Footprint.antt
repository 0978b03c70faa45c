-- ===== src/Stack/Footprint.antt =====
-- `Stack` of coroutine/src/stack/mod.rs: the words of a stack, their marks, and how many are used.
-- coroutine/src/done.rs: what becomes of a coroutine by that.
use chiya.Prelude.{
  ℕ, zero, suc, ◌+◌, ◌-◌, ◌*◌, ◌/◌, ◌%◌, ◌^◌, ◌≤◌, ◌<◌, ◌≡◌, ◌≢◌, ◌⊎◌, ◌↔◌, get_elem?, refl, sym,
  ap, ◌∙◌, Bool, true, false, ◌==◌, ltb, leb, if◌then◌else◌, arith, Bool-cases, inl, inr, Option,
  none, some, List, [], ◌∷◌, ◌++◌, length, replicate, set, length-replicate, length-append,
  length-drop, max, Outcome, drop,
}
use mathlib.Core.Option.{some-injective}
use chiya.Prelude
use chiya.Prelude.Effects.{Effect, returns, panics, undefined, and_then}
use chiya.Stack.{SysStack, StackResult, ok, io_error, exceeds_maximum_size, allocate}

-- A word of eight bytes 0xEE.
abbrev pub magic : ℕ
magic = 0xEEEE_EEEE_EEEE_EEEE

-- `write_bytes` of whole words from the bottom on, and a write of the word with a number.
write_front : ℕ → ℕ → List ℕ → Effect (List ℕ)
write_front count w words =
    if leb count (length words) then returns (replicate count w ++ drop count words) else undefined

write_word : ℕ → ℕ → List ℕ → Effect (List ℕ)
write_word i w words = if ltb i (length words) then returns (set words i w) else undefined

-- `SysStack::len`, and `size` in words.
abbrev pub len : SysStack → ℕ
len s = s.top - s.bottom

abbrev pub size : SysStack → ℕ
size s = len s / 8

-- `get_offset`: `(top as *mut usize).offset(1)`, as the number of a word.
get_offset : SysStack → ℕ
get_offset s = size s + 1

module _ (allocate_stack : ℕ → Option SysStack) (protect_stack : SysStack → Option SysStack)
    (page_size min_stack_size max_stack_size : ℕ) where
  -- The words of a stack of the system, which a mapping has as zeros, made ready.
  pub prepare : ℕ → SysStack → Effect (List ℕ)
  prepare words_asked s =
      let count = if words_asked % 2 == 1 then size s else 8 in
      and_then (write_front count magic (replicate (size s) 0)) (write_word (get_offset s) 1)

  -- `expect` of the result
  abbrev pub expected : ℕ → Outcome StackResult → Effect (List ℕ)
  expected words_asked (Prelude.value (ok s)) = prepare words_asked s
  expected words_asked (Prelude.value io_error) = panics
  expected words_asked (Prelude.value (exceeds_maximum_size n)) = panics
  expected words_asked Prelude.panic = panics

  unfoldable pub new : ℕ → Effect (List ℕ)
  new words_asked =
      if ltb (words_asked * 8) (2 ^ 64)
      then expected words_asked (
          allocate allocate_stack protect_stack page_size min_stack_size max_stack_size
            (max (words_asked * 8) min_stack_size) true)
      else panics

-- The loop of `get_used_size`, which reads from the bottom on until a word differs.
footprint : List ℕ → Effect ℕ
footprint [] = undefined
footprint (w ∷ words) =
    let more = footprint words in
    if w == magic then and_then more (λ n. returns (suc n)) else returns 0

pub get_used_size : List ℕ → Effect ℕ
get_used_size words = and_then (footprint words) (λ offset. returns (length words - offset))

-- What `Done::drop_coroutine` does with a coroutine.
pub data Dropped : Type 0 where
  exits : Dropped
  pooled : Dropped
  freed : Dropped

-- By what `stack_usage` says, and the configured size.
pub drop_coroutine : ℕ → ℕ → ℕ → Dropped
drop_coroutine stack_size size used =
    if used == size then exits else if size == stack_size then pooled else freed

length-front :
    (count w : ℕ) (words : List ℕ)
    → count ≤ length words
    → length (replicate count w ++ drop count words) ≡ length words
length-front count w words le = omega (
  arith,
  length-append (replicate count w) (drop count words),
  length-replicate {A = ℕ} count w,
  length-drop count words,
)

prepare-undefined :
    (words_asked : ℕ) (s : SysStack)
    → (alloc : ℕ → Option SysStack) (protect : SysStack → Option SysStack) (page lo hi : ℕ)
    → prepare alloc protect page lo hi words_asked s ≡ undefined
unfolding prepare write_front write_word get_offset
prepare-undefined words_asked s alloc protect page lo hi =
    let count = if words_asked % 2 == 1 then size s else 8 in
    let zeros = replicate {A = ℕ} (size s) 0 in
    let all : length zeros ≡ size s = length-replicate (size s) 0 in
    elim (Bool-cases (leb count (length zeros))) [
      | inr over ↦ rw over refl
      | inl fits ↦
          let marked : length (replicate count magic ++ drop count zeros) ≡ size s =
            length-front count magic zeros (ground arith) ∙ all in
          let outside : ltb (size s + 1) (length (replicate count magic ++ drop count zeros))
              ≡ false =
            ground arith in
          rw fits (rw outside refl)
    ]

-- On any platform and for any number of words `Stack::new` never gives a stack: it panics, or
-- writes past the top of the mapping.
pub new-undefined :
    (alloc : ℕ → Option SysStack) (protect : SysStack → Option SysStack)
    (page lo hi words_asked : ℕ)
    → (new alloc protect page lo hi words_asked ≡ panics)
      ⊎ (new alloc protect page lo hi words_asked ≡ undefined)
unfolding new
new-undefined alloc protect page lo hi words_asked =
    elim (Bool-cases (ltb (words_asked * 8) (2 ^ 64))) [
      | inr over ↦ inl (rw over refl)
      | inl fits ↦
          rw fits (from (allocate alloc protect page lo hi (max (words_asked * 8) lo) true))
    ]
  where
    from :
        (r : Outcome StackResult)
        → (expected alloc protect page lo hi words_asked r ≡ panics)
          ⊎ (expected alloc protect page lo hi words_asked r ≡ undefined)
    from (Prelude.value (ok s)) = inr (prepare-undefined words_asked s alloc protect page lo hi)
    from (Prelude.value io_error) = inl refl
    from (Prelude.value (exceeds_maximum_size n)) = inl refl
    from Prelude.panic = inl refl

-- The marks that are left, and the first word without one.
abbrev pub Used : List ℕ → ℕ → ℕ → List ℕ → Type 0
Used words k w rest = (words ≡ replicate k magic ++ (w ∷ rest)) × (w ≢ magic)

footprint-cases :
    (words : List ℕ)
    → ((words ≡ replicate (length words) magic) × (footprint words ≡ undefined))
      ⊎ ((k : ℕ) × (w : ℕ) × (rest : List ℕ) × (footprint words ≡ returns k) × Used words k w rest)
unfolding footprint
footprint-cases [] = inl (refl, refl)
footprint-cases (w ∷ words) = elim (Bool-cases (w == magic)) [
  | inr used ↦ inr (0, w, words, rw used refl, (refl, λ e. ground arith))
  | inl mark ↦
      let same : w ≡ magic = ground arith in
      elim (footprint-cases words) [
        | inl (all, beyond) ↦
            inl (rw (same) (ap (λ k. magic ∷ k) all), rw (mark, beyond, footprint) refl)
        | inr (k, v, rest, e, (shape, differs)) ↦ inr (
          suc k,
          v,
          rest,
          rw (mark, e, footprint) refl,
          (rw same (ap (λ l. magic ∷ l) shape), differs),
        )
      ]
]

-- `get_used_size` counts the words from the first one without a mark to the top; where every word
-- has its mark it reads past the top.
pub get_used_size-cases :
    (words : List ℕ)
    → ((words ≡ replicate (length words) magic) × (get_used_size words ≡ undefined))
      ⊎ ((k : ℕ) × (w : ℕ) × (rest : List ℕ) × (get_used_size words ≡ returns (suc (length rest)))
          × Used words k w rest)
unfolding get_used_size
get_used_size-cases words = elim (footprint-cases words) [
  | inl (all, beyond) ↦ inl (all, rw beyond refl)
  | inr (k, w, rest, e, (shape, differs)) ↦
      let whole : length words ≡ k + suc (length rest) =
        ap length shape
        ∙ length-append (replicate k magic) (w ∷ rest)
        ∙ ap (λ n. n + suc (length rest)) (length-replicate k magic) in
      let left : length words - k ≡ suc (length rest) = omega arith in
      inr (k, w, rest, rw e (ap returns left), (shape, differs))
]

returns-ne-undefined : (n : ℕ) → ¬ (◌≡◌ {A = Effect ℕ} undefined (returns n))
returns-ne-undefined n e = cc

full-exits : (stack_size n : ℕ) → drop_coroutine stack_size n n ≡ exits
unfolding drop_coroutine
full-exits stack_size n = let e : n == n ≡ true = ground arith in rw e refl

part-not_exits : (stack_size n used : ℕ) → used < n → ¬ (drop_coroutine stack_size n used ≡ exits)
unfolding drop_coroutine
part-not_exits stack_size n used lt =
    let e : used == n ≡ false = ground arith in
    elim (Bool-cases (n == stack_size)) [
      | inl pool ↦ rw (e, pool) (λ f. cc)
      | inr other ↦ rw (e, other) (λ f. cc)
    ]

-- Where `get_used_size` returns, a coroutine is found to have overflowed, and the process exits,
-- exactly if the lowest word of its stack has no mark.
pub drop_coroutine-exits :
    (stack_size used : ℕ) (words : List ℕ)
    → get_used_size words ≡ returns used
    → (drop_coroutine stack_size (length words) used ≡ exits) ↔ (get_elem? words 0 ≢ some magic)
drop_coroutine-exits stack_size used words e = elim (get_used_size-cases words) [
  | inl (all, beyond) ↦ absurd (returns-ne-undefined used (sym beyond ∙ e))
  | inr (zero, w, rest, f, (shape, differs)) ↦
      let same : used ≡ suc (length rest) = cc in
      rw (shape, same)
        (
          (λ x y. differs (some-injective w magic y)),
          (λ x. full-exits stack_size (suc (length rest))),
        )
  | inr (suc k, w, rest, f, (shape, differs)) ↦
      let same : used ≡ suc (length rest) = cc in
      let more : length (replicate k magic ++ (w ∷ rest))
          ≡ length (replicate {A = ℕ} k magic) + suc (length rest) =
        length-append (replicate k magic) (w ∷ rest) in
      rw (shape, same)
        (
          (λ x y. part-not_exits stack_size _ (suc (length rest)) (omega arith) x),
          (λ x. absurd (x refl)),
        )
]
