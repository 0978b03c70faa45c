-- ===== src/Atomic/Tests.antt =====
-- The theorems on atomic operations at concrete cells.
use chiya.Prelude.{
  ℕ, ◌+◌, ◌%◌, ◌^◌, ◌≡◌, ◌↔◌, refl, true, Option, some, [], ◌∷◌, ◌==◌, if◌then◌else◌, arith,
  Bool-cases, inl, inr, ◌≢◌, List, false, ◌⊎◌, map, length-map,
}
use chiya.Sync.SeqLock
use chiya.Sync.SeqLock.{SeqLock}
use chiya.Atomic.{Layout, AtomicSize, is_lock_free, is_lock_free_iff, select, check, can_transmute}
use chiya.Atomic.Int.{i8, u64, u128, add, sub, next_value, value_of}
use chiya.Prelude.Int.{◌-ℤ◌}
use chiya.Atomic.Fetch.{Call, Shared, ready, System, alone, run, is_native}
use chiya.Atomic.Bounds.{next_value-exact}
use chiya.Atomic.Alone.{Done, alone-Done}
use chiya.Atomic.Overlap.{FirstLost, overlap, two, overlap-Lost}
use chiya.Atomic.Native.{pending, run-sum}
use chiya.Atomic.Words.{Cell, to_load, loaded, stored, take_turns}
use chiya.Atomic.Steps.{stamped}
use chiya.Atomic.Torn.{
  waiting_store, store_then_load, store_between, store_then_load-loaded, store_between-torn,
}
use chiya.Atomic.Cell.{Result, ok, err, Exchange, IsWeak, fetch_update, load_from}
use chiya.Atomic.Cell.Load.{KeepsSize}
use chiya.Atomic.Cell.Update.{Updated, Succeeds, fetch_update-Updated}
use mathlib.Core.List.{List-discrete}
use native.Mathlib.Decide.{ℕ_discrete}

is_lock_free_iff_example : (is_lock_free (record { size = 8; align = 1 }) ≡ true) ↔ AtomicSize 8
is_lock_free_iff_example = is_lock_free_iff (record { size = 8; align = 1 })

next_value-exact_example : next_value i8 sub 250 100 ≡ 150
unfolding value_of ◌-ℤ◌
next_value-exact_example =
    next_value-exact i8 true 250 100 150 (omega arith) (omega arith) (omega arith) (ground arith)

abbrev memory : Shared
memory = record { cells = λ i. i + 5; locks = λ i. SeqLock.new }

abbrev adding : Call
adding = record { scalar = u128; fetch = add; addr = 70; val = 2 }

alone-Done_example : Done memory adding (alone 7 memory (ready adding))
alone-Done_example = alone-Done memory adding

overlap-Lost_example :
    FirstLost adding adding memory (run overlap (two memory (ready adding) (ready adding)))
unfolding is_native
overlap-Lost_example = overlap-Lost memory adding adding refl refl refl

abbrev quick : Call
quick = record { scalar = u64; fetch = add; addr = 1; val = 9 }

abbrev quick_pair : System
quick_pair = record { shared = memory; threads = ready quick ∷ ready quick ∷ [] }

run-sum_example :
    ((run (1 ∷ []) quick_pair).shared.cells 1 + pending (run (1 ∷ []) quick_pair).threads) % 2 ^ 64
    ≡ 24
unfolding is_native is_lock_free select check can_transmute pending
run-sum_example =
    run-sum u64 1 quick_pair (1 ∷ []) refl
      ((refl, refl, refl, omega arith), ((refl, refl, refl, omega arith), refl))

store_then_load-loaded_example :
    take_turns (store_then_load (3 ∷ 4 ∷ [])) (waiting_store (stamped (1 ∷ 2 ∷ []) 0) (3 ∷ 4 ∷ []))
    ≡ record { cell = stamped (3 ∷ 4 ∷ []) 3; loader = loaded (3 ∷ 4 ∷ []); storer = stored }
store_then_load-loaded_example = store_then_load-loaded (stamped (1 ∷ 2 ∷ []) 0) (3 ∷ 4 ∷ []) refl

first_differs : ◌≢◌ {A = List ℕ} (1 ∷ []) (3 ∷ [])
first_differs e = cc

last_differs : ◌≢◌ {A = List ℕ} (2 ∷ []) (4 ∷ [])
last_differs e = cc

store_between-torn_example :
    (take_turns
        (store_between (3 ∷ []) (4 ∷ []))
        (waiting_store (stamped (1 ∷ 2 ∷ []) 3) (3 ∷ 4 ∷ []))
      ≡ record { cell = stamped (3 ∷ 4 ∷ []) 3; loader = loaded (1 ∷ 4 ∷ []); storer = stored })
    × (◌≢◌ {A = List ℕ} (1 ∷ 4 ∷ []) (1 ∷ 2 ∷ []))
    × (◌≢◌ {A = List ℕ} (1 ∷ 4 ∷ []) (3 ∷ 4 ∷ []))
store_between-torn_example =
    store_between-torn (1 ∷ []) (2 ∷ []) (3 ∷ []) (4 ∷ []) refl refl first_differs last_differs

-- An exchange that fails only where the content is another.
abbrev exchange_by :
    (content current next : List ℕ) → Dec (content ≡ current) → Result (List ℕ) × List ℕ
exchange_by content current next (yes same) = (ok content, next)
exchange_by content current next (no other) = (err content, content)

abbrev exact_exchange : Exchange (List ℕ)
exact_exchange n content current next =
    exchange_by content current next (List-discrete ℕ_discrete content current)

exact_exchange-IsWeak : IsWeak exact_exchange
exact_exchange-IsWeak n content current next =
    by_decision (List-discrete ℕ_discrete content current)
  where
    by_decision :
        (d : Dec (content ≡ current))
        → ((content ≡ current) × (exchange_by content current next d ≡ (ok content, next)))
          ⊎ (exchange_by content current next d ≡ (err content, content))
    by_decision (yes same) = inl (same, refl)
    by_decision (no other) = inr refl

-- Another thread adds to each word before the second access.
abbrev one_store : ℕ → List ℕ → List ℕ
one_store n content = if n == 1 then map (λ w. w + 5) content else content

one_store-KeepsSize : KeepsSize one_store
one_store-KeepsSize n content = elim (Bool-cases (n == 1)) [
  | inl second ↦ rw second (length-map content (λ w. w + 5))
  | inr other ↦ rw other refl
]

abbrev unmoved : ℕ → SeqLock → SeqLock
unmoved n lock = lock

abbrev bump : ℕ → List ℕ → Option (List ℕ)
bump n content = some (map (λ w. w + 1) content)

exact_exchange-Succeeds : Succeeds exact_exchange one_store bump 1
exact_exchange-Succeeds = record {
  exchanged =
      λ n late content next. succeeds content next (List-discrete ℕ_discrete content content);
  unchanged = λ n late content. let other : n == 1 ≡ false = ground arith in rw other refl;
}
  where
    succeeds :
        (content next : List ℕ) (d : Dec (content ≡ content))
        → exchange_by content content next d ≡ (ok content, next)
    succeeds content next (yes same) = refl
    succeeds content next (no other) = absurd (other refl)

-- Two words, of a type that no instruction serves.
abbrev two_words : Cell
two_words = record { words = 7 ∷ 8 ∷ []; lock = SeqLock.new }

abbrev wide : Layout
wide = record { size = 16; align = 8 }

fetch_update-Updated_example :
    (at : ℕ) × (loaded_cell : Cell) × (value : List ℕ) × (r : Result (List ℕ) × List ℕ) × (load_from
        wide one_store unmoved 13 0 two_words to_load
      ≡ some (at, loaded_cell, value))
    × (fetch_update wide one_store unmoved exact_exchange bump 13 two_words ≡ some r)
    × Updated exact_exchange one_store bump (7 ∷ 8 ∷ []) at value r
    × ((is_lock_free wide ≡ false) ⊎ ((at ≡ 0) × (value ≡ 7 ∷ 8 ∷ [])))
fetch_update-Updated_example =
    fetch_update-Updated wide one_store unmoved exact_exchange bump 1 two_words one_store-KeepsSize
      (λ n late lock. refl) exact_exchange-IsWeak exact_exchange-Succeeds
