-- ===== src/Atomic/Truth.antt =====
-- The methods of `AtomicCell<bool>` of coroutine/src/sync/atomic_cell.rs as truth tables.
use chiya.Prelude.{ℕ, ◌≡◌, refl, ap, Bool, true, false, not, ◌&&◌, ◌||◌, ◌∙◌}
use chiya.Atomic.Int.{bool, and, nand, or, xor, Fetch, next_value}
use chiya.Atomic.Fetch.{Shared, bit_of, bool_fetch}
use chiya.Atomic.Undo.{after, after-cell}

-- What each of the four makes of two truth values.
abbrev pub truth : Fetch → Bool → Bool → Bool
truth and a b = a && b
truth nand a b = not (a && b)
truth or a b = a || b
truth xor a b = (a && not b) || (not a && b)
truth other a b = a

abbrev pub OnBits : Fetch → Type 0
OnBits f = (a b : Bool) → next_value bool f (bit_of a) (bit_of b) ≡ bit_of (truth f a b)

and-OnBits : OnBits and
unfolding next_value
and-OnBits true true = refl
and-OnBits true false = refl
and-OnBits false true = refl
and-OnBits false false = refl

nand-OnBits : OnBits nand
unfolding next_value
nand-OnBits true true = refl
nand-OnBits true false = refl
nand-OnBits false true = refl
nand-OnBits false false = refl

or-OnBits : OnBits or
unfolding next_value
or-OnBits true true = refl
or-OnBits true false = refl
or-OnBits false true = refl
or-OnBits false false = refl

xor-OnBits : OnBits xor
unfolding next_value
xor-OnBits true true = refl
xor-OnBits true false = refl
xor-OnBits false true = refl
xor-OnBits false false = refl

-- A cell with a truth value has after `fetch_and`, `fetch_nand`, `fetch_or` or `fetch_xor` that no
-- other thread is in what the logical operation makes of it.
pub bool_fetch-truth :
    (s : Shared) (addr : ℕ) (a b : Bool)
    → s.cells addr ≡ bit_of a
    → ((after (bool_fetch and addr b) s).cells addr ≡ bit_of (truth and a b))
      × ((after (bool_fetch nand addr b) s).cells addr ≡ bit_of (truth nand a b))
      × ((after (bool_fetch or addr b) s).cells addr ≡ bit_of (truth or a b))
      × ((after (bool_fetch xor addr b) s).cells addr ≡ bit_of (truth xor a b))
unfolding bool_fetch
bool_fetch-truth s addr a b e = (
  made and (and-OnBits a b),
  made nand (nand-OnBits a b),
  made or (or-OnBits a b),
  made xor (xor-OnBits a b),
)
  where
    made :
        (f : Fetch)
        → next_value bool f (bit_of a) (bit_of b) ≡ bit_of (truth f a b)
        → (after (bool_fetch f addr b) s).cells addr ≡ bit_of (truth f a b)
    made f t = after-cell (bool_fetch f addr b) s ∙ ap (λ x. next_value bool f x (bit_of b)) e ∙ t
