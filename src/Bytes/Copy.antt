-- ===== src/Bytes/Copy.antt =====
-- `BufMut::put` of bytes/src/bytes_mut.rs, and `Buf::copy_to_bytes` of bytes/src/buf/buf_impl.rs,
-- which puts into a `BytesMut`.
pub mod Moved
pub mod Shown
mod Tests
use chiya.Prelude.{ℕ, zero, suc, Option, none, some, length, ltb, not, if◌then◌else◌}
use chiya.Prelude.Looping
use chiya.Prelude.Looping.{Run}
use chiya.Memory.{Memory, Result, ok, panic, undefined, and_then}
use chiya.Buf.{Buf}
use chiya.Buf.Read.{has_remaining}
use chiya.Buf.Take.{Take, take_buf}
use chiya.Bytes.{Bytes}
use chiya.Bytes.Convert.{freeze}
use chiya.BytesMut.{BytesMut}
use chiya.BytesMut.Grow.{extend_from_slice, with_capacity}

-- What comes after a call on the memory, and after one of the reader; `none` is no result within the
-- fuel.
abbrev pub after {ℓ μ} :
    {A : Type ℓ} {B : Type μ} → Result A → (A → Memory → Option (Result B)) → Option (Result B)
after (ok a m) next = next a m
after panic next = some panic
after undefined next = some undefined

abbrev pub after_run {ℓ μ} :
    {A : Type ℓ} {B : Type μ} → Run A → (A → Option (Result B)) → Option (Result B)
after_run (Looping.done a) next = next a
after_run Looping.panic next = some panic
after_run Looping.stuck next = none

abbrev pub after_all {ℓ μ} :
    {A : Type ℓ} {B : Type μ}
    → Option (Result A)
    → (A → Memory → Option (Result B))
    → Option (Result B)
after_all none next = none
after_all (some r) next = after r next

module _ (spare : ℕ → ℕ) {T : Type 0} (p : Buf T) where
  unfoldable pub put : ℕ → BytesMut → T → Memory → Option (Result (BytesMut × T))
  put zero self src m = if has_remaining p src then none else some (ok (self, src) m)
  put (suc fuel) self src m =
      if not (has_remaining p src)
      then some (ok (self, src) m)
      else after (extend_from_slice spare self (p.chunk src) m) (λ self' m'.
        after_run (p.advance src (length (p.chunk src))) (λ src'. put fuel self' src' m'))

module _ (spare base : ℕ → ℕ) {T : Type 0} (p : Buf T) where
  -- The provided `copy_to_bytes`: the bytes, and the reader behind them. A round of `put` moves a
  -- byte at least, so `len` rounds are enough.
  pub copy_to_bytes : T → ℕ → Memory → Option (Result (Bytes × T))
  copy_to_bytes self len m =
      if ltb (p.remaining self) len
      then some panic
      else after (with_capacity spare len m) (λ ret m'.
        after_all (put spare (take_buf p) len ret (record { inner = self; limit = len }) m')
          (λ r m''. some (and_then (freeze base r.0 m'') (λ b. ok (b, r.1.inner)))))
