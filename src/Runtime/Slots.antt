-- ===== src/Runtime/Slots.antt =====
-- The slots of coroutine/src/runtime.rs for parameters and results.
use chiya.Prelude.{ℕ, ◌≡◌, ◌≢◌, refl, true, false, ◌==◌, arith, none, some}
use chiya.Prelude.Effects.{returns, panics, undefined}
use chiya.Runtime.{
  Slot, Context, taken, filled, get_para, coroutine_get_para, coroutine_set_para, set_ret,
  coroutine_set_ret,
}

module _ {V : Type 0} where
  -- A parameter that was set is read once, where the slot has its type; in a slot of another type
  -- `get_para` panics, and the accesses of a coroutine read and write what is no value of the type.
  pub para_roundtrip :
      (c : Context V) (slot : Slot V) (v : V)
      → c.para ≡ some slot
      → let set = record c { para = some (filled slot v) } in
        let read = record c { para = some (taken slot) } in
        (coroutine_set_para slot.type_id v c ≡ returns set)
        × (get_para slot.type_id set ≡ returns (some v, read))
        × (coroutine_get_para slot.type_id set ≡ returns (some v, read))
        × (get_para slot.type_id read ≡ returns (none, read))
  unfolding coroutine_set_para get_para coroutine_get_para
  para_roundtrip c slot v e =
      let same : slot.type_id == slot.type_id ≡ true = ground arith in
      (rw e (rw same refl), rw same refl, rw same refl, rw same refl)

  pub other_type :
      (c : Context V) (para ret : Slot V) (t : ℕ) (v : V)
      → c.para ≡ some para
      → c.ret ≡ some ret
      → para.type_id ≢ t
      → ret.type_id ≢ t
      → (get_para t c ≡ panics)
        × (coroutine_get_para t c ≡ undefined)
        × (coroutine_set_para t v c ≡ undefined)
        × (set_ret t v c ≡ panics)
        × (coroutine_set_ret t v c ≡ undefined)
  unfolding get_para coroutine_get_para coroutine_set_para set_ret coroutine_set_ret
  other_type c para ret t v p r dp dr =
      let np : para.type_id == t ≡ false = ground arith in
      let nr : ret.type_id == t ≡ false = ground arith in
      (
        rw p (rw np refl),
        rw p (rw np refl),
        rw p (rw np refl),
        rw r (rw nr refl),
        rw r (rw nr refl),
      )
