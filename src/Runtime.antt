-- ===== src/Runtime.antt =====
-- The contexts of coroutine/src/runtime.rs by address, their slots for parameters and results, and
-- the search through their parents. The registers of a context are not modelled.
pub mod Search
pub mod Slots
mod Tests
use chiya.Prelude.{
  ℕ, zero, suc, ◌+◌, ◌≤◌, ◌≡◌, ◌≢◌, refl, sym, ap, ◌∙◌, Bool, true, false, not, ◌==◌, if◌then◌else◌,
  arith, Bool-cases, inl, inr, Option-cases, ◌<◌, Option, none, some, List, [], ◌∷◌, length,
}
use chiya.Prelude.Effects.{Effect, returns, panics, undefined}

-- `*mut dyn Any` to an `Option<T>`: the number of `T`, and the value.
pub record Slot (V : Type 0) : Type 0 where
  pub type_id : ℕ
  pub value : Option V

-- A null pointer is `none`.
pub record Context (V : Type 0) : Type 0 where
  pub child : Option ℕ
  pub parent : Option ℕ
  pub para : Option (Slot V)
  pub ret : Option (Slot V)
  pub refs : ℕ
  pub local_data : Option ℕ
  pub err : Option ℕ
  pub stack_guard : ℕ × ℕ

abbrev pub eq_address : Option ℕ → Option ℕ → Bool
eq_address none none = true
eq_address none (some b) = false
eq_address (some a) none = false
eq_address (some a) (some b) = a == b

module _ {V : Type 0} where
  abbrev pub new : Context V
  new = record {
    child = none;
    parent = none;
    para = none;
    ret = none;
    refs = 1;
    local_data = none;
    err = none;
    stack_guard = (0, 0);
  }

  -- The method of a context at an address.
  unfoldable pub context_is_generator : ℕ → Context V → Bool
  context_is_generator self c = not (eq_address c.parent (some self))

  -- `take` of the value of a slot that has the type.
  abbrev pub taken : Slot V → Slot V
  taken slot = record { type_id = slot.type_id; value = none }

  abbrev pub filled : Slot V → V → Slot V
  filled slot v = record { type_id = slot.type_id; value = some v }

  pub get_para : ℕ → Context V → Effect (Option V × Context V)
  get_para t c = elim c.para [
    | none ↦ panics
    | some slot ↦
        if slot.type_id == t
        then returns (slot.value, record c { para = some (taken slot) })
        else panics
  ]

  -- These take the pointer for one of the type that they are called with.
  pub coroutine_get_para : ℕ → Context V → Effect (Option V × Context V)
  coroutine_get_para t c = elim c.para [
    | none ↦ panics
    | some slot ↦
        if slot.type_id == t
        then returns (slot.value, record c { para = some (taken slot) })
        else undefined
  ]

  pub coroutine_set_para : ℕ → V → Context V → Effect (Context V)
  coroutine_set_para t v c = elim c.para [
    | none ↦ panics
    | some slot ↦
        if slot.type_id == t then returns (record c { para = some (filled slot v) }) else undefined
  ]

  pub set_ret : ℕ → V → Context V → Effect (Context V)
  set_ret t v c = elim c.ret [
    | none ↦ panics
    | some slot ↦
        if slot.type_id == t then returns (record c { ret = some (filled slot v) }) else panics
  ]

  pub coroutine_set_ret : ℕ → V → Context V → Effect (Context V)
  coroutine_set_ret t v c = elim c.ret [
    | none ↦ panics
    | some slot ↦
        if slot.type_id == t then returns (record c { ret = some (filled slot v) }) else undefined
  ]

-- A thread: its `ROOT_CONTEXT_P`, the contexts, and an address that none has yet.
pub record Thread (V : Type 0) : Type 0 where
  pub root : Option ℕ
  pub contexts : ℕ → Context V
  pub next : ℕ

module _ {V : Type 0} where
  pub init_root : Thread V → ℕ × Thread V
  init_root s = (
    s.next,
    record {
      root = some s.next;
      contexts = λ a. if a == s.next then record new { parent = some s.next } else s.contexts a;
      next = suc s.next;
    },
  )

  -- `ContextStack::current`
  pub current : Thread V → ℕ × Thread V
  current s = elim s.root [ none ↦ init_root s | some root ↦ (root, s) ]

  -- `top`; a null pointer is no context.
  pub top : (ℕ → Context V) → ℕ → Option ℕ
  top contexts root = (contexts root).parent

  -- The loop of `coroutine_ctx` and of `get_local_data`: the first context with data, from `ctx` to
  -- the root. `none` is the end of the fuel; a null pointer on the way is read.
  pub search : (ℕ → Context V) → ℕ → ℕ → Option ℕ → Option (Effect (Option ℕ))
  search contexts root zero ctx = none
  search contexts root (suc fuel) none = some undefined
  search contexts root (suc fuel) (some ctx) =
      let further = search contexts root fuel (contexts ctx).parent in
      if ctx == root
      then some (returns none)
      else elim (contexts ctx).local_data [ some d ↦ some (returns (some ctx)) | none ↦ further ]

  pub coroutine_ctx : (ℕ → Context V) → ℕ → ℕ → Option (Effect (Option ℕ))
  coroutine_ctx contexts root fuel = search contexts root fuel (top contexts root)

  pub is_generator : Thread V → Bool × Thread V
  is_generator s =
      let here = current s in
      (elim (here.1.contexts here.0).child [ none ↦ false | some c ↦ true ], here.1)

  abbrev pub data_of : (ℕ → Context V) → Option ℕ → Option ℕ
  data_of contexts none = none
  data_of contexts (some a) = (contexts a).local_data

  abbrev pub data_found : (ℕ → Context V) → Effect (Option ℕ) → Effect (Option ℕ)
  data_found contexts (returns found) = returns (data_of contexts found)
  data_found contexts panics = panics
  data_found contexts undefined = undefined

  abbrev pub local_data_of :
      (ℕ → Context V) → Option (Effect (Option ℕ)) → Option (Effect (Option ℕ))
  local_data_of contexts none = none
  local_data_of contexts (some r) = some (data_found contexts r)

  -- `get_local_data`, which has the same loop.
  pub get_local_data : ℕ → Thread V → Option (Effect (Option ℕ)) × Thread V
  get_local_data fuel s =
      let here = current s in
      (
        local_data_of here.1.contexts
            (search here.1.contexts here.0 fuel (top here.1.contexts here.0)),
        here.1,
      )
