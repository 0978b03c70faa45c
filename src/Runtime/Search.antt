-- ===== src/Runtime/Search.antt =====
-- The search of coroutine/src/runtime.rs through the parents of a context.
use chiya.Prelude.{
  ℕ, zero, suc, ◌≡◌, ◌≢◌, refl, ap, true, false, ◌==◌, arith, inl, inr, Option-cases, ◌<◌, Option,
  none, some, List, [], ◌∷◌, length,
}
use chiya.Prelude.Effects.{returns}
use chiya.Runtime.{
  Context, Thread, init_root, current, top, search, coroutine_ctx, is_generator, data_of,
  get_local_data,
}

module _ {V : Type 0} where
  -- The addresses from a context up to the root, which has none of them.
  abbrev pub Chain : (ℕ → Context V) → ℕ → Option ℕ → List ℕ → Type 0
  Chain contexts root ctx [] = ctx ≡ some root
  Chain contexts root ctx (a ∷ path) =
      (ctx ≡ some a) × (a ≢ root) × Chain contexts root (contexts a).parent path

  -- The first of them with local data.
  unfoldable pub first_local : (ℕ → Context V) → List ℕ → Option ℕ
  first_local contexts [] = none
  first_local contexts (a ∷ path) = elim (contexts a).local_data [
    | some d ↦ some a
    | none ↦ first_local contexts path
  ]

  search-first_local :
      (contexts : ℕ → Context V) (root : ℕ) (ctx : Option ℕ) (path : List ℕ) (fuel : ℕ)
      → length path < fuel
      → Chain contexts root ctx path
      → search contexts root fuel ctx ≡ some (returns (first_local contexts path))
  unfolding search first_local
  search-first_local contexts root ctx path zero lt chain = absurd (omega arith)
  search-first_local contexts root ctx [] (suc fuel) lt chain =
      let here : root == root ≡ true = ground arith in rw chain (rw here refl)
  search-first_local contexts root ctx (a ∷ path) (suc fuel) lt (at, ne, chain) =
      let other : a == root ≡ false = ground arith in
      elim (Option-cases (contexts a).local_data) [
        | inr (d, has) ↦ rw at (rw (other, has, first_local) refl)
        | inl without ↦ rw at (
            rw (other, without, search, first_local)
              (search-first_local contexts root (contexts a).parent path fuel (omega arith) chain))
      ]

  -- In a thread that has a root, where the parents lead from its top to it, as many rounds as
  -- there are contexts before the root, and one more, are enough: `coroutine_ctx` finds the first
  -- of them with local data, or none where none has any, and `get_local_data` gives the data of
  -- that one.
  pub coroutine_ctx-first_local :
      (s : Thread V) (root : ℕ) (path : List ℕ)
      → s.root ≡ some root
      → Chain s.contexts root (top s.contexts root) path
      → let fuel = suc (length path) in
        let found = first_local s.contexts path in
        (coroutine_ctx s.contexts root fuel ≡ some (returns found))
        × (get_local_data fuel s ≡ (some (returns (data_of s.contexts found)), s))
  unfolding coroutine_ctx get_local_data current
  coroutine_ctx-first_local s root path has chain =
      let found =
        search-first_local s.contexts root (top s.contexts root) path (suc (length path))
          (omega arith) chain in
      (found, rw has (rw found refl))

  current_from : Thread V → Option ℕ → ℕ × Thread V
  current_from s root = elim root [ none ↦ init_root s | some r ↦ (r, s) ]

  current-init_root : (s : Thread V) → s.root ≡ none → current s ≡ init_root s
  unfolding current current_from
  current-init_root s no_root = ap (current_from s) no_root

  init_root-top :
      (s : Thread V) → top (init_root s).1.contexts (init_root s).0 ≡ some (init_root s).0
  unfolding top init_root
  init_root-top s = let same : s.next == s.next ≡ true = ground arith in rw (same, top) refl

  init_root-child : (s : Thread V) → ((init_root s).1.contexts (init_root s).0).child ≡ none
  unfolding init_root
  init_root-child s = let same : s.next == s.next ≡ true = ground arith in rw same refl

  root-of : (s : Thread V) → (init_root s).1.root ≡ some (init_root s).0
  unfolding init_root
  root-of s = refl

  init_root-search :
      (s : Thread V)
      → search
          (init_root s).1.contexts
          (init_root s).0
          1
          (top (init_root s).1.contexts (init_root s).0)
        ≡ some (returns none)
  unfolding first_local
  init_root-search s =
      search-first_local (init_root s).1.contexts (init_root s).0 _ [] 1 (omega arith)
        (init_root-top s)

  -- In a thread with no root yet, `current` makes one that is its own top: then no coroutine and no
  -- local data are found, and the thread is in no generator.
  pub current-none :
      (s : Thread V)
      → s.root ≡ none
      → let here = current s in
        (here.1.root ≡ some here.0)
        × (coroutine_ctx here.1.contexts here.0 1 ≡ some (returns none))
        × (get_local_data 1 s ≡ (some (returns none), here.1))
        × (is_generator s ≡ (false, here.1))
  unfolding coroutine_ctx get_local_data is_generator
  current-none s no_root =
      let made = current-init_root s no_root in
      rw made
        (root-of s, init_root-search s, rw (init_root-search s) refl, rw (init_root-child s) refl)
