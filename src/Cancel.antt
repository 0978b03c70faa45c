-- ===== src/Cancel.antt =====
-- `CancelImpl` of coroutine/src/cancel.rs, at `CancelIoImpl`, whose `cancel` returns `None`. The
-- coroutine is a value of `C`; `schedule` takes it.
mod Tests
use chiya.Prelude.{
  ℕ, zero, suc, ◌+◌, ◌-◌, ◌*◌, ◌/◌, ◌%◌, ◌≤◌, ◌<◌, ◌^◌, ◌≡◌, refl, ap, sym, ◌∙◌, Bool, true, false,
  ◌&&◌, List, [], ◌∷◌, ◌==◌, ltb, leb, if◌then◌else◌, arith, Bool-cases, inl, inr, Option, none,
  some,
}

-- The registered coroutine is behind two options: the registration, and the slot that it shares
-- with the one who suspended.
pub record Cancel (C : Type 0) : Type 0 where
  pub state : ℕ
  pub coroutine : Option (Option C)

-- `fetch_or(1)`
abbrev pub fetch_or_1 : ℕ → ℕ
fetch_or_1 state = if state % 2 == 0 then state + 1 else state

pub data Call : Type 0 where
  disable enable cancel_it : Call

module _ {C : Type 0} where
  abbrev pub new : Cancel C
  new = record { state = 0; coroutine = none }

  pub is_cancelled : Cancel C → Bool
  is_cancelled self = self.state == 1

  pub is_disabled : Cancel C → Bool
  is_disabled self = leb 2 self.state

  -- `fetch_add` and `fetch_sub` wrap around.
  pub disable_cancel : Cancel C → Cancel C
  disable_cancel self = record self { state = (self.state + 2) % 2 ^ 64 }

  pub enable_cancel : Cancel C → Cancel C
  enable_cancel self = record self { state = (self.state + (2 ^ 64 - 2)) % 2 ^ 64 }

  -- The coroutine that it schedules, and the new state; both options are taken.
  pub cancel : Cancel C → Option C × Cancel C
  cancel self = elim self.coroutine [
    | none ↦ (none, record { state = fetch_or_1 self.state; coroutine = none })
    | some slot ↦ (slot, record { state = fetch_or_1 self.state; coroutine = none })
  ]

  unfoldable pub step : Cancel C → Call → Cancel C
  step self disable = disable_cancel self
  step self enable = enable_cancel self
  step self cancel_it = (cancel self).1

  unfoldable pub run : List Call → Cancel C → Cancel C
  run [] self = self
  run (call ∷ calls) self = run calls (step self call)

-- What the state stands for: how often the cancellation is disabled, and whether it was asked for.
abbrev pub encode : ℕ → Bool → ℕ
encode depth true = depth * 2 + 1
encode depth false = depth * 2

-- The counter that the state implements: it may not go below 0, nor to 2^62.
pub count : List Call → ℕ → Bool → Option (ℕ × Bool)
count [] depth asked = some (depth, asked)
count (disable ∷ calls) depth asked =
    if ltb (depth + 1) (2 ^ 62) then count calls (depth + 1) asked else none
count (enable ∷ calls) zero asked = none
count (enable ∷ calls) (suc depth) asked = count calls depth asked
count (cancel_it ∷ calls) depth asked = count calls depth true

encode-disable :
    (depth : ℕ) (asked : Bool)
    → depth + 1 < 2 ^ 62
    → (encode depth asked + 2) % 2 ^ 64 ≡ encode (depth + 1) asked
encode-disable depth true h = omega arith
encode-disable depth false h = omega arith

encode-enable :
    (depth : ℕ) (asked : Bool)
    → suc depth < 2 ^ 62
    → (encode (suc depth) asked + (2 ^ 64 - 2)) % 2 ^ 64 ≡ encode depth asked
encode-enable depth true h = omega arith
encode-enable depth false h = omega arith

encode-cancel : (depth : ℕ) (asked : Bool) → fetch_or_1 (encode depth asked) ≡ encode depth true
encode-cancel depth true = ground arith
encode-cancel depth false = ground arith

count-disable :
    (calls : List Call) (depth : ℕ) (asked : Bool) (r : ℕ × Bool)
    → count (disable ∷ calls) depth asked ≡ some r
    → (depth + 1 < 2 ^ 62) × (count calls (depth + 1) asked ≡ some r)
unfolding count
count-disable calls depth asked r c = elim (Bool-cases (ltb (depth + 1) (2 ^ 62))) [
  | inl fits ↦ (ground arith, sym (rw fits) ∙ c)
  | inr over ↦ let e : count (disable ∷ calls) depth asked ≡ none = rw over in cc
]

module _ {C : Type 0} where
  cancel-state : (self : Cancel C) → (cancel self).1.state ≡ fetch_or_1 self.state
  unfolding cancel
  cancel-state self = by_slot self.coroutine
    where
      by_slot :
          (o : Option (Option C))
          → (cancel (record self { coroutine = o })).1.state ≡ fetch_or_1 self.state
      by_slot none = refl
      by_slot (some slot) = refl

  run-encode :
      (calls : List Call) (self : Cancel C) (depth : ℕ) (asked : Bool) {d : ℕ} {a : Bool}
      → depth < 2 ^ 62
      → self.state ≡ encode depth asked
      → count calls depth asked ≡ some (d, a)
      → (run calls self).state ≡ encode d a
  unfolding run step count disable_cancel enable_cancel cancel
  run-encode [] self depth asked h e c =
      e ∙ ap (λ o. elim o [ none ↦ encode depth asked | some r ↦ encode r.0 r.1 ]) c
  run-encode (disable ∷ calls) self depth asked h e c =
      let (fits, later) = count-disable calls depth asked _ c in
      run-encode calls (disable_cancel self) (depth + 1) asked fits
        (ap (λ k. (k + 2) % 2 ^ 64) e ∙ encode-disable depth asked fits) later
  run-encode (enable ∷ calls) self zero asked h e c = cc
  run-encode (enable ∷ calls) self (suc depth) asked h e c =
      run-encode calls (enable_cancel self) depth asked (omega arith)
        (ap (λ k. (k + (2 ^ 64 - 2)) % 2 ^ 64) e ∙ encode-enable depth asked h) c
  run-encode (cancel_it ∷ calls) self depth asked h e c =
      run-encode calls (cancel self).1 depth true h
        (cancel-state self ∙ ap fetch_or_1 e ∙ encode-cancel depth asked) c

-- After any calls on a new `Cancel` that enable no more often than they disable, and do not
-- disable 2^62 times at once, the state is that of the counter: it is cancelled exactly if that
-- was asked for and is not disabled, and disabled exactly while an enabling is missing.
pub run-count :
    (C : Type 0) (calls : List Call) {depth : ℕ} {asked : Bool}
    → count calls 0 false ≡ some (depth, asked)
    → ((run calls (new {C = C})).state ≡ encode depth asked)
      × (is_cancelled (run calls (new {C = C})) ≡ (asked && depth == 0))
      × (is_disabled (run calls (new {C = C})) ≡ ltb 0 depth)
unfolding is_cancelled is_disabled
run-count C calls {depth} {asked} c =
    let e = run-encode calls new 0 false (omega arith) refl c in
    (e, ap (λ k. k == 1) e ∙ cancelled depth asked, ap (leb 2) e ∙ disabled depth asked)
  where
    cancelled : (depth : ℕ) (asked : Bool) → (encode depth asked == 1) ≡ (asked && depth == 0)
    cancelled depth true = ground arith
    cancelled depth false = ground arith

    disabled : (depth : ℕ) (asked : Bool) → leb 2 (encode depth asked) ≡ ltb 0 depth
    disabled depth true = ground arith
    disabled depth false = ground arith
