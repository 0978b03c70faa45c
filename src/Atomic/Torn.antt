-- ===== src/Atomic/Torn.antt =====
-- A load and a store of a value of several words: one after the other, and in turns.
use chiya.Prelude.{
  ℕ, suc, ◌+◌, ◌≡◌, refl, sym, ap, List, [], ◌∷◌, ◌++◌, arith, length, length-append, append-nil,
  ◌∙◌, ◌≢◌, take, drop, take_all, take-append_le,
}
use chiya.Atomic.Words.{
  Cell, to_load, reading, loaded, to_store, stored, loads, Pair, Turn, load_for, store_for,
  take_turn, take_turns,
}
use chiya.Atomic.Steps.{
  stamped, loads-next, store-alone, to_load-reading, validate_same, load-alone, reading-loads,
  reading-end, loads-add,
}

abbrev pub waiting_store : Cell → List ℕ → Pair
waiting_store s value = record { cell = s; loader = to_load; storer = to_store value }

abbrev pub store_then_load : List ℕ → List Turn
store_then_load value =
    store_for (suc (suc (length value + 1))) ∷ load_for (suc (length value + 1)) ∷ []

-- On any lock, an `atomic_store` of as many words as the cell has, and then an `atomic_load`, both
-- return, and the load gives the value that was stored.
pub store_then_load-loaded :
    (s : Cell) (value : List ℕ)
    → length s.words ≡ length value
    → take_turns (store_then_load value) (waiting_store s value)
      ≡ record { cell = stamped value 3; loader = loaded value; storer = stored }
unfolding take_turns take_turn
store_then_load-loaded s value e = rw (store-alone s value e, load-alone value) refl

-- The load stops after the words of `a`, and goes on after a whole store.
abbrev pub store_between : List ℕ → List ℕ → List Turn
store_between a b =
    load_for (suc (length a))
    ∷ store_for (suc (suc (length (a ++ b) + 1)))
    ∷ load_for (length b + 1)
    ∷ []

-- The first words are those of before, and the others those of the store.
store_between-loaded :
    (a b c d : List ℕ)
    → length a ≡ length c
    → length b ≡ length d
    → take_turns (store_between c d) (waiting_store (stamped (a ++ b) 3) (c ++ d))
      ≡ record { cell = stamped (c ++ d) 3; loader = loaded (a ++ d); storer = stored }
unfolding take_turns take_turn loads
store_between-loaded a b c d p q =
    rw (first, store-alone (stamped (a ++ b) 3) (c ++ d) whole, last) refl
  where
    whole : length (a ++ b) ≡ length (c ++ d)
    whole = omega (arith, length-append a b, length-append c d)

    first : loads (suc (length c)) (stamped (a ++ b) 3) to_load ≡ (stamped (a ++ b) 3, reading 3 a)
    first =
        ap (λ k. loads (suc k) (stamped (a ++ b) 3) to_load) (sym p)
        ∙ loads-next (length a) (stamped (a ++ b) 3) to_load
            (to_load-reading (stamped (a ++ b) 3) refl)
        ∙ reading-loads (stamped (a ++ b) 3) [] a b [] 3 refl refl

    last :
        loads (length d + 1) (stamped (c ++ d) 3) (reading 3 a)
        ≡ (stamped (c ++ d) 3, loaded (a ++ d))
    last =
        loads-add (length d) 1 (stamped (c ++ d) 3) (reading 3 a)
        ∙ ap (λ r. loads 1 r.0 r.1)
            (reading-loads (stamped (c ++ d) 3) c d [] a 3 p
              (ap (λ k. c ++ k) (sym (append-nil d))))
        ∙ loads-next 0 (stamped (c ++ d) 3) (reading 3 (a ++ d)) (
            reading-end (stamped (c ++ d) 3) 3 (a ++ d)
              (omega (arith, length-append a d, length-append c d)) (validate_same 3))

append-tail : (a xs ys : List ℕ) → a ++ xs ≡ a ++ ys → xs ≡ ys
append-tail [] xs ys e = e
append-tail (x ∷ a) xs ys e = append-tail a xs ys (ap (drop 1) e)

append-front : (a c d : List ℕ) → length a ≡ length c → a ++ d ≡ c ++ d → a ≡ c
append-front a c d same e =
    sym (take_all (length a) a (omega arith))
    ∙ sym (take-append_le (length a) a d (omega arith))
    ∙ ap (take (length a)) e
    ∙ take-append_le (length a) c d (omega arith)
    ∙ take_all (length a) c (omega arith)

-- Where the stamp is 3, as each store leaves it, an `atomic_load` has read the words `a` of `a`
-- and `b` when an `atomic_store` of `c` and `d` runs from its start to its end, and `a` is not `c`
-- and `b` is not `d`, the load returns `a` and then `d`: neither the value of before nor the one
-- that was stored.
pub store_between-torn :
    (a b c d : List ℕ)
    → length a ≡ length c
    → length b ≡ length d
    → a ≢ c
    → b ≢ d
    → (take_turns (store_between c d) (waiting_store (stamped (a ++ b) 3) (c ++ d))
        ≡ record { cell = stamped (c ++ d) 3; loader = loaded (a ++ d); storer = stored })
      × (a ++ d ≢ a ++ b)
      × (a ++ d ≢ c ++ d)
store_between-torn a b c d p q front back = (
  store_between-loaded a b c d p q,
  (λ e. back (sym (append-tail a d b e))),
  (λ e. front (append-front a c d p e)),
)
