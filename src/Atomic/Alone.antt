-- ===== src/Atomic/Alone.antt =====
-- A call on an `AtomicCell` with no other thread: the instruction and the locked form do the same.
use chiya.Prelude.{
  ℕ, zero, suc, ◌≡◌, ◌≢◌, refl, sym, ap, Bool, true, false, ◌==◌, if◌then◌else◌, arith, Bool-cases,
  inl, inr, ◌∙◌,
}
use chiya.Sync.SeqLock.{SeqLock, SeqLockWriteGuard, drop, try_write-none, try_write-some}
use chiya.Atomic.{lock_index}
use chiya.Atomic.Int.{next_value, reads_again}
use chiya.Atomic.Fetch.{
  Call, Shared, Thread, ready, spinning, locked, returned, granted, update, advance, alone,
  is_native,
}

pub update_self {ℓ} : {A : Type ℓ} (f : ℕ → A) (i : ℕ) (a : A) → update f i a i ≡ a
update_self f i a = let e : i == i ≡ true = ground arith in rw e refl

pub update_ne {ℓ} : {A : Type ℓ} (f : ℕ → A) {i j : ℕ} (a : A) → i ≢ j → update f i a j ≡ f j
update_ne f {i} {j} a h = let e : i == j ≡ false = ground arith in rw e refl

pub if_same {ℓ} : {A : Type ℓ} (b : Bool) (x : A) → (if b then x else x) ≡ x
if_same true x = refl
if_same false x = refl

abbrev stored : Shared → Call → ℕ → ℕ
stored s c = update s.cells c.addr (next_value c.scalar c.fetch (s.cells c.addr) c.val)

-- What a call comes to: it returns what was in its cell, which has the new value; no other cell and
-- no lock but that of the address has changed.
abbrev pub Done : Shared → Call → Shared × Thread → Type 0
Done s c r =
    (locks : ℕ → SeqLock) × (r
      ≡ (record { cells = stored s c; locks = locks }, returned (s.cells c.addr)))
    × ((j : ℕ) → j ≢ lock_index c.addr → locks j ≡ s.locks j)

returned-alone : (n : ℕ) (s : Shared) (x : ℕ) → alone n s (returned x) ≡ (s, returned x)
unfolding alone advance
returned-alone zero s x = refl
returned-alone (suc n) s x = returned-alone n s x

pub ready-native :
    (s : Shared) (c : Call)
    → is_native c.scalar ≡ true
    → advance s (ready c) ≡ (record s { cells = stored s c }, returned (s.cells c.addr))
unfolding advance
ready-native s c h = rw (h, advance) refl

pub ready-fallback :
    (s : Shared) (c : Call) → is_native c.scalar ≡ false → advance s (ready c) ≡ (s, spinning c)
unfolding advance
ready-fallback s c h = rw (h, advance) refl

-- A round of `write`, on the result of `try_write`.
abbrev pub spun : Shared → Call → SeqLock → Shared
spun s c l = record s { locks = update s.locks (lock_index c.addr) l }

pub spinning-locked :
    (s : Shared) (c : Call)
    → (s.locks (lock_index c.addr)).state == 1 ≡ true
    → advance s (spinning c) ≡ (spun s c (record { state = 1 }), locked c (record { stamp = 1 }))
unfolding advance
spinning-locked s c h =
    ap (λ r. (record s { locks = update s.locks (lock_index c.addr) r.1 }, granted c r.0))
      (try_write-some (s.locks (lock_index c.addr)) h)

pub spinning-free :
    (s : Shared) (c : Call)
    → (s.locks (lock_index c.addr)).state == 1 ≡ false
    → advance s (spinning c) ≡ (spun s c (record { state = 1 }), spinning c)
unfolding advance
spinning-free s c h =
    ap (λ r. (record s { locks = update s.locks (lock_index c.addr) r.1 }, granted c r.0))
      (try_write-none (s.locks (lock_index c.addr)) h)

-- The steps from the lock on, where only the lock of the address may differ from those of `s`.
locked-Done :
    (k : ℕ) (s : Shared) (c : Call) (g : SeqLockWriteGuard) (locks : ℕ → SeqLock)
    → ((j : ℕ) → j ≢ lock_index c.addr → locks j ≡ s.locks j)
    → Done s c (alone (suc (suc (suc (suc k)))) (record s { locks = locks }) (locked c g))
unfolding alone advance
locked-Done k s c g locks same = rw (if_same (reads_again c.fetch) (s.cells c.addr)) (
  update locks (lock_index c.addr) (drop g (locks (lock_index c.addr))),
  returned-alone k _ (s.cells c.addr),
  λ j h. let h' : lock_index c.addr ≢ j = λ e. h (sym e) in update_ne locks _ h' ∙ same j h,
)

alone-next :
    (n : ℕ) (s : Shared) (t : Thread) {r : Shared × Thread}
    → advance s t ≡ r
    → alone (suc n) s t ≡ alone n r.0 r.1
unfolding alone
alone-next n s t e = ap (λ r. alone n r.0 r.1) e

Done-of : (s : Shared) (c : Call) {x y : Shared × Thread} → x ≡ y → Done s c y → Done s c x
Done-of s c e d = (d.0, e ∙ d.1, d.2)

spinning-Done :
    (k : ℕ) (s : Shared) (c : Call) (locks : ℕ → SeqLock)
    → ((j : ℕ) → j ≢ lock_index c.addr → locks j ≡ s.locks j)
    → (locks (lock_index c.addr)).state == 1 ≡ true
    → Done s c (alone (suc (suc (suc (suc (suc k))))) (record s { locks = locks }) (spinning c))
spinning-Done k s c locks same taken =
    let s' : Shared = record s { locks = locks } in
    Done-of s c (alone-next (suc (suc (suc (suc k)))) s' (spinning c) (spinning-locked s' c taken))
      (locked-Done k s c _ (spun s' c (record { state = 1 })).locks
        λ j h. update_ne locks _ (λ e. h (sym e)) ∙ same j h)

-- A call on a cell that no other thread is in, on any lock and in either form: seven steps are
-- enough for it to return what was in the cell, which then has the new value; no other cell
-- changes, and no lock but that of the address.
pub alone-Done : (s : Shared) (c : Call) → Done s c (alone 7 s (ready c))
alone-Done s c = elim (Bool-cases (is_native c.scalar)) [
  | inl native ↦
      Done-of s c (alone-next 6 s (ready c) (ready-native s c native) ∙ returned-alone 6 _ _)
        (s.locks, refl, λ j h. refl)
  | inr fallback ↦
      Done-of s c (alone-next 6 s (ready c) (ready-fallback s c fallback))
        (elim (Bool-cases ((s.locks (lock_index c.addr)).state == 1)) [
          | inl taken ↦ spinning-Done 1 s c s.locks (λ j h. refl) taken
          | inr free ↦ Done-of s c (alone-next 5 s (spinning c) (spinning-free s c free)) (
              spinning-Done 0 s c (spun s c (record { state = 1 })).locks
                (λ j h. update_ne s.locks _ (λ e. h (sym e)))
                (rw (update_self s.locks (lock_index c.addr) (record { state = 1 })) refl))
        ])
]
