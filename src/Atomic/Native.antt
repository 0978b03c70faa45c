-- ===== src/Atomic/Native.antt =====
-- Calls of `fetch_add` on one cell of a type that an instruction serves, in any order.
use chiya.Prelude.{
  ℕ, zero, suc, ◌+◌, ◌%◌, ◌<◌, ◌≡◌, refl, ap, true, none, some, List, [], ◌∷◌, arith, get_elem?,
  set, inl, inr, Option-cases, ◌∙◌,
}
use native.Mathlib.Nat.{mod-add-mod}
use mathlib.Core.Path.{subst}
use chiya.Atomic.Int.{Scalar, add, modulus, next_value}
use chiya.Atomic.Fetch.{
  Call, Thread, ready, spinning, locked, has_old, has_both, written, returned, System, update,
  advance, moved, step, run, is_native,
}
use chiya.Atomic.Alone.{update_self, ready-native}

-- What the threads that have not begun their call are yet to add.
abbrev pub pending_of : Thread → ℕ
pending_of (ready c) = c.val
pending_of other = 0

unfoldable pub pending : List Thread → ℕ
pending [] = 0
pending (t ∷ ts) = pending_of t + pending ts

-- A thread has a `fetch_add` before it on the cell, or has returned.
abbrev pub Adds : Scalar → ℕ → Thread → Type 0
Adds t addr (ready c) = (c.scalar ≡ t) × (c.fetch ≡ add) × (c.addr ≡ addr) × (c.val < modulus t)
Adds t addr (returned old) = ◌≡◌ {A = ℕ} 0 0
Adds t addr other = ◌≡◌ {A = ℕ} 0 1

abbrev pub AllAdd : Scalar → ℕ → List Thread → Type 0
AllAdd t addr [] = ◌≡◌ {A = ℕ} 0 0
AllAdd t addr (u ∷ us) = Adds t addr u × AllAdd t addr us

module _ (t : Scalar) (addr : ℕ) where
  get_elem?-Adds :
      (us : List Thread) (n : ℕ) (u : Thread)
      → AllAdd t addr us
      → get_elem? us n ≡ some u
      → Adds t addr u
  get_elem?-Adds [] n u h e = cc
  get_elem?-Adds (v ∷ us) zero u h e = subst (Adds t addr) (cc) h.0
  get_elem?-Adds (v ∷ us) (suc n) u h e = get_elem?-Adds us n u h.1 e

  AllAdd-set :
      (us : List Thread) (n : ℕ) (old : ℕ)
      → AllAdd t addr us
      → AllAdd t addr (set us n (returned old))
  AllAdd-set [] n old h = h
  AllAdd-set (v ∷ us) zero old h = (refl, h.1)
  AllAdd-set (v ∷ us) (suc n) old h = (h.0, AllAdd-set us n old h.1)

pending-set :
    (us : List Thread) (n old : ℕ) (u : Thread)
    → get_elem? us n ≡ some u
    → pending (set us n (returned old)) + pending_of u ≡ pending us
unfolding pending
pending-set [] n old u e = cc
pending-set (v ∷ us) zero old u e = let same : v ≡ u = cc in rw same (omega arith)
pending-set (v ∷ us) (suc n) old u e = omega (arith, pending-set us n old u e)

step-none : (s : System) (n : ℕ) → get_elem? s.threads n ≡ none → step s n ≡ s
unfolding step
step-none s n e = rw (e, step) refl

pub step-some :
    (s : System) (n : ℕ) (u : Thread)
    → get_elem? s.threads n ≡ some u
    → step s n ≡ moved s n (advance s.shared u)
unfolding step
step-some s n u e = rw (e, step) refl

added : (t : Scalar) (x val : ℕ) → next_value t add x val ≡ (x + val) % modulus t
unfolding next_value
added t x val = refl

-- The cell and what is yet to be added, modulo the modulus of the type, come to `total`.
pub record Counted (t : Scalar) (addr total : ℕ) (s : System) : Type 0 where
  pub adds : AllAdd t addr s.threads
  pub sum : (s.shared.cells addr + pending s.threads) % modulus t ≡ total % modulus t

module _ (t : Scalar) (addr total : ℕ) (native : is_native t ≡ true) where
  ready-Counted :
      (s : System) (n : ℕ) (c : Call)
      → Counted t addr total s
      → get_elem? s.threads n ≡ some (ready c)
      → Counted t addr total (moved s n (advance s.shared (ready c)))
  ready-Counted s n c h e =
      let call = get_elem?-Adds t addr s.threads n (ready c) h.adds e in
      let scalar : c.scalar ≡ t = call.0 in
      let fetch : c.fetch ≡ add = call.1 in
      let at : c.addr ≡ addr = call.2 in
      let native' : is_native c.scalar ≡ true = rw scalar native in
      let x : ℕ = s.shared.cells addr in
      let rest : ℕ = pending (set s.threads n (returned (s.shared.cells c.addr))) in
      let cell : update s.shared.cells c.addr
            (next_value c.scalar c.fetch (s.shared.cells c.addr) c.val) addr
          ≡ (x + c.val) % modulus t =
        rw (at, scalar, fetch)
          (update_self s.shared.cells addr (next_value t add x c.val) ∙ added t x c.val) in
      let left : rest + c.val ≡ pending s.threads =
        pending-set s.threads n (s.shared.cells c.addr) (ready c) e in
      let all : x + c.val + rest ≡ x + pending s.threads = omega arith in
      rw (ready-native s.shared c native') (record {
        adds = AllAdd-set t addr s.threads n (s.shared.cells c.addr) h.adds;
        sum =
            ap (λ k. (k + rest) % modulus t) cell
            ∙ mod-add-mod (x + c.val) (modulus t) rest
            ∙ ap (λ k. k % modulus t) all
            ∙ h.sum;
      })

  returned-Counted :
      (s : System) (n old : ℕ)
      → Counted t addr total s
      → get_elem? s.threads n ≡ some (returned old)
      → Counted t addr total (moved s n (advance s.shared (returned old)))
  unfolding advance
  returned-Counted s n old h e =
      let same : pending (set s.threads n (returned old)) ≡ pending s.threads =
        omega (arith, pending-set s.threads n old (returned old) e) in
      record { adds = AllAdd-set t addr s.threads n old h.adds; sum = rw same h.sum }

  moved-Counted :
      (s : System) (n : ℕ) (u : Thread)
      → Counted t addr total s
      → get_elem? s.threads n ≡ some u
      → Adds t addr u
      → Counted t addr total (moved s n (advance s.shared u))
  moved-Counted s n (ready c) h e a = ready-Counted s n c h e
  moved-Counted s n (returned old) h e a = returned-Counted s n old h e
  moved-Counted s n (spinning c) h e a = absurd (omega arith)
  moved-Counted s n (locked c g) h e a = absurd (omega arith)
  moved-Counted s n (has_old c g old) h e a = absurd (omega arith)
  moved-Counted s n (has_both c g old x) h e a = absurd (omega arith)
  moved-Counted s n (written c g old) h e a = absurd (omega arith)

  step-Counted : (s : System) (n : ℕ) → Counted t addr total s → Counted t addr total (step s n)
  step-Counted s n h = elim (Option-cases (get_elem? s.threads n)) [
    | inl missing ↦ rw (step-none s n missing) h
    | inr (u, e) ↦
        rw (step-some s n u e)
          (moved-Counted s n u h e (get_elem?-Adds t addr s.threads n u h.adds e))
  ]

  run-Counted :
      (ns : List ℕ) (s : System) → Counted t addr total s → Counted t addr total (run ns s)
  unfolding run
  run-Counted [] s h = h
  run-Counted (n ∷ ns) s h = run-Counted ns (step s n) (step-Counted s n h)

-- Threads that each have one `fetch_add` before them, on one cell of a type that an instruction
-- serves: in whatever order they run, the cell and what is yet to be added come to the same sum,
-- modulo 2 to the number of bits. No addition is lost.
pub run-sum :
    (t : Scalar) (addr : ℕ) (s : System) (ns : List ℕ)
    → is_native t ≡ true
    → AllAdd t addr s.threads
    → ((run ns s).shared.cells addr + pending (run ns s).threads) % modulus t
      ≡ (s.shared.cells addr + pending s.threads) % modulus t
run-sum t addr s ns native adds =
    (run-Counted t addr (s.shared.cells addr + pending s.threads) native ns s
      (record { adds = adds; sum = refl })).sum
