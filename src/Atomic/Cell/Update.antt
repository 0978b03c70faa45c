-- ===== src/Atomic/Cell/Update.antt =====
-- `fetch_update` of coroutine/src/sync/atomic_cell.rs: what it returns, and that it does.
use chiya.Prelude.{
  ℕ, zero, suc, ◌+◌, ◌*◌, ◌≤◌, ◌<◌, ◌≡◌, ◌⊎◌, refl, sym, ap, false, Option, none, some, arith, inl,
  inr, Option-cases, ◌∙◌, dec_lt, List, length,
}
use chiya.Sync.SeqLock.{SeqLock}
use chiya.Atomic.{Layout, is_lock_free}
use chiya.Atomic.Words.{Cell, to_load}
use chiya.Atomic.Cell.{
  found_at, Result, ok, err, Exchange, IsWeak, update_loop, load_from, fetch_update,
}
use chiya.Atomic.Cell.Load.{Settled, KeepsSize, load_from-Ends}

ok-ne-err {ℓ} : {A : Type ℓ} {x y : A} → ¬ (ok x ≡ err y)
ok-ne-err e = cc

module _ {ℓ} {A : Type ℓ} (exchange : Exchange A) (others : ℕ → A → A) (f : ℕ → A → Option A) where
  loop-none :
      (fuel n : ℕ) (content previous : A)
      → f n previous ≡ none
      → update_loop exchange others f (suc fuel) n content previous ≡ some (err previous, content)
  unfolding update_loop
  loop-none fuel n content previous e = rw (e, update_loop) refl

  then_retry : ℕ → ℕ → Result A × A → Option (Result A × A)
  then_retry fuel n q = elim q.0 [
    | ok x ↦ some (ok x, q.1)
    | err found ↦ update_loop exchange others f fuel (suc n) q.1 found
  ]

  loop-ok :
      (fuel n : ℕ) (content previous next x c : A)
      → f n previous ≡ some next
      → exchange (suc n) (others (suc n) content) previous next ≡ (ok x, c)
      → update_loop exchange others f (suc fuel) n content previous ≡ some (ok x, c)
  unfolding update_loop then_retry
  loop-ok fuel n content previous next x c e r = rw (e, update_loop) (ap (then_retry fuel n) r)

  loop-err :
      (fuel n : ℕ) (content previous next x c : A)
      → f n previous ≡ some next
      → exchange (suc n) (others (suc n) content) previous next ≡ (err x, c)
      → update_loop exchange others f (suc fuel) n content previous
        ≡ update_loop exchange others f fuel (suc n) c x
  unfolding update_loop then_retry
  loop-err fuel n content previous next x c e r = rw (e, update_loop) (ap (then_retry fuel n) r)

  -- A value `p` is tried after the access `n`: it is what the load `at` returned, or what the access
  -- found. Where `f` refuses it, it is returned as an error and the content stays; where `f` makes
  -- another of it, the next access finds it still and replaces it.
  abbrev pub Updated : (start : A) (at : ℕ) (value : A) → Result A × A → Type ℓ
  Updated start at value r =
      (n : ℕ) × (p : A) × (((n ≡ at) × (p ≡ value)) ⊎ (p ≡ found_at others start n))
      × (((f n p ≡ none) × (r ≡ (err p, found_at others start n)))
          ⊎ ((next : A) × (f n p ≡ some next)
              × (found_at others start (suc n) ≡ p)
              × (r ≡ (ok p, next))))

  -- From the access with the number `k` on, an exchange does not fail where the content is the
  -- current one, and no other thread changes the content.
  pub record Succeeds (k : ℕ) : Type ℓ where
    pub exchanged :
        (n : ℕ) → k < n → (content next : A) → exchange n content content next ≡ (ok content, next)
    pub unchanged : (n : ℕ) → k < n → (content : A) → others n content ≡ content

  module _ (weak : IsWeak exchange) (k : ℕ) (quiet : Succeeds k) (start : A) (at : ℕ)
      (value : A) where
    abbrev Returned : Option (Result A × A) → Type ℓ
    Returned o = (r : Result A × A) × (o ≡ some r) × Updated start at value r

    Returned-of : {o o' : Option (Result A × A)} → o ≡ o' → Returned o' → Returned o
    Returned-of e h = (h.0, e ∙ h.1, h.2)

    -- A round with a value: it ends the loop, or the exchange fails and the content is tried.
    round :
        (fuel n : ℕ) (p : A)
        → (((n ≡ at) × (p ≡ value)) ⊎ (p ≡ found_at others start n))
        → (((next : A)
            → exchange (suc n) (found_at others start (suc n)) p next
              ≡ (err (found_at others start (suc n)), found_at others start (suc n))
            → Returned (
                update_loop exchange others f fuel
                  (suc n)
                  (found_at others start (suc n))
                  (found_at others start (suc n)))))
        → Returned (update_loop exchange others f (suc fuel) n (found_at others start n) p)
    unfolding found_at
    round fuel n p from continue =
        let now : A = found_at others start n in
        elim (Option-cases (f n p)) [
          | inl refused ↦
              ((err p, now), loop-none fuel n now p refused, (n, p, from, inl (refused, refl)))
          | inr (next, e) ↦ elim (weak (suc n) (others (suc n) now) p next) [
            | inl (same, exchanged) ↦ (
              (ok p, next),
              loop-ok fuel n now p next _ _ e exchanged ∙ ap (λ x. some (ok x, next)) same,
              (n, p, from, inr (next, e, same, refl)),
            )
            | inr failed ↦
                Returned-of (loop-err fuel n now p next _ _ e failed) (continue next failed)
          ]
        ]

    quiet-ok :
        (n : ℕ)
        → k < suc n
        → (next : A)
        → ¬ (
            exchange (suc n) (found_at others start (suc n)) (found_at others start n) next
            ≡ (err (found_at others start (suc n)), found_at others start (suc n)))
    unfolding found_at
    quiet-ok n late next failed =
        let same = quiet.unchanged (suc n) late (found_at others start n) in
        let done = quiet.exchanged (suc n) late (found_at others start n) next in
        ok-ne-err (
          ap (λ q. q.0)
            (sym (ap (λ c. exchange (suc n) c (found_at others start n) next) same ∙ done)
              ∙ failed))

    loop-Returned :
        (fuel n : ℕ)
        → 1 ≤ fuel
        → k < n + fuel
        → Returned (
            update_loop exchange others f fuel n
              (found_at others start n)
              (found_at others start n))
    loop-Returned zero n some_fuel enough = absurd (omega arith)
    loop-Returned (suc fuel) n some_fuel enough =
        round fuel n (found_at others start n) (inr refl) (λ next failed. elim (dec_lt n k) [
          | yes more ↦ loop-Returned fuel (suc n) (omega arith) (omega arith)
          | no last ↦ absurd (quiet-ok n (omega arith) next failed)
        ])

    pub update_loop-Returned :
        (fuel : ℕ)
        → k + 2 ≤ fuel
        → Returned (update_loop exchange others f fuel at (found_at others start at) value)
    update_loop-Returned zero enough = absurd (omega arith)
    update_loop-Returned (suc fuel) enough =
        round fuel at value (inl (refl, refl))
          (λ next failed. loop-Returned fuel (suc at) (omega arith) (omega arith))

-- The loop with what the load came to.
then_update :
    Exchange (List ℕ)
    → (ℕ → List ℕ → List ℕ)
    → (ℕ → List ℕ → Option (List ℕ))
    → ℕ
    → Option (ℕ × Cell × List ℕ)
    → Option (Result (List ℕ) × List ℕ)
then_update exchange others f fuel o = elim o [
  | none ↦ none
  | some q ↦ update_loop exchange others f fuel q.0 q.1.words q.2
]

-- On a type of any size, where the other threads keep the size of the content and leave it and the
-- lock alone after the access `k`, and exchanges of the current content do not fail after it, the
-- load ends within `k + 2 * words + 8` accesses and the loop within as many rounds. The call ends
-- with a value that the load returned or an access found: where `f` refuses it, it is returned as
-- an error and the content stays; where `f` makes another of it, the next access finds it,
-- replaces it, and it is returned. Where the type has an instruction, the load returns what its
-- one access found; nothing is said of what a locked load returns.
pub fetch_update-Updated :
    (t : Layout) (others : ℕ → List ℕ → List ℕ) (lock_moves : ℕ → SeqLock → SeqLock)
    (exchange : Exchange (List ℕ)) (f : ℕ → List ℕ → Option (List ℕ)) (k : ℕ) (s : Cell)
    → KeepsSize others
    → Settled lock_moves k
    → IsWeak exchange
    → Succeeds exchange others f k
    → let fuel = k + 2 * length s.words + 8 in
      (at : ℕ) × (loaded_cell : Cell) × (value : List ℕ) × (r : Result (List ℕ) × List ℕ)
      × (load_from t others lock_moves fuel 0 s to_load ≡ some (at, loaded_cell, value))
      × (fetch_update t others lock_moves exchange f fuel s ≡ some r)
      × Updated exchange others f s.words at value r
      × ((is_lock_free t ≡ false) ⊎ ((at ≡ 0) × (value ≡ others 0 s.words)))
unfolding fetch_update then_update
fetch_update-Updated t others lock_moves exchange f k s sizes settled weak quiet =
    let fuel = k + 2 * length s.words + 8 in
    let (at, cell, value, read, same, exact) =
      load_from-Ends t others lock_moves sizes k settled s in
    let (r, e, u) =
      update_loop-Returned exchange others f weak k quiet s.words at value fuel (omega arith) in
    (
      at,
      cell,
      value,
      r,
      read,
      ap (then_update exchange others f fuel) read
          ∙ ap (λ c. update_loop exchange others f fuel at c value) same
          ∙ e,
      u,
      exact,
    )
