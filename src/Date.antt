-- ===== src/Date.antt =====
-- The date crate, date/src: the record of date_time.rs, and the result of its fallible functions.
pub mod Civil
pub mod Slice
pub mod Digits
pub mod Parse
pub mod Format
pub mod Api
mod Tests
use chiya.Prelude.{ℕ, ◌^◌, ◌<◌, Bool, true, false}

-- `DateTime`; a byte and a `u16` are numbers, whose ranges are `InRange`.
pub record DateTime : Type 0 where
  pub sec_c : ℕ
  pub min_c : ℕ
  pub hr_c : ℕ
  pub day_c : ℕ
  pub mon_c : ℕ
  pub year_c : ℕ
  pub wday_c : ℕ

-- What the field types `u8` and `u16` give.
pub record InRange (d : DateTime) : Type 0 where
  pub sec_u8 : d.sec_c < 2 ^ 8
  pub min_u8 : d.min_c < 2 ^ 8
  pub hr_u8 : d.hr_c < 2 ^ 8
  pub day_u8 : d.day_c < 2 ^ 8
  pub mon_u8 : d.mon_c < 2 ^ 8
  pub year_u16 : d.year_c < 2 ^ 16
  pub wday_u8 : d.wday_c < 2 ^ 8

-- `Result<A, DateTimeError>`, where `err` is `Err(DateTimeError(()))`, and a panic.
pub data Result {ℓ} (A : Type ℓ) : Type ℓ where
  ok : A → Result A
  err panic : Result A

infixl 5 ◌>>◌ ◌>>=◌
abbrev pub ◌>>=◌ {ℓ μ} :
    {A : Type ℓ} {B : Type μ} (first : Result A) (rest : A → Result B) → Result B
ok a >>= rest = rest a
err >>= rest = err
panic >>= rest = panic

abbrev pub ◌>>◌ {ℓ} : {B : Type ℓ} → Result (Unit {0}) → Result B → Result B
test >> rest = test >>= λ _. rest

-- `Result::or_else` on a closure that ignores the error.
abbrev pub or_else {ℓ} : {A : Type ℓ} → Result A → Result A → Result A
or_else (ok a) other = ok a
or_else err other = other
or_else panic other = panic

-- `if test { return Err(DateTimeError(())) }`
abbrev pub reject_if : Bool → Result (Unit {0})
reject_if true = err
reject_if false = ok tt
