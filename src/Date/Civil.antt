-- ===== src/Date/Civil.antt =====
-- The conversions between `SystemTime` and `DateTime`, `is_leap_year`, `is_valid` and `cmp` of
-- date/src/date_time.rs. An `i64` is an integer: every value here is far inside its range.
pub mod Year
pub mod Fields
pub mod Calendar
pub mod Instant
pub mod RoundTrip
pub mod Validity
pub mod Order
use Prim.Native.Nat.{bit_and, compare, Ordering}
use chiya.Prelude.{
  ℕ, suc, ◌+◌, ◌-◌, ◌*◌, ◌/◌, ◌%◌, ◌≤◌, Bool, true, false, not, ◌&&◌, ◌||◌, List, [], ◌∷◌, ltb, leb,
  ◌==◌, if◌then◌else◌, Outcome, value, panic, ◌>>=◌, ◌>>◌, assert,
}
use chiya.Prelude.Int.{ℤ, pos, negsuc, pos_part, neg_part, ◌+ℤ◌, ◌-ℤ◌, ◌*ℤ◌, ltb_ℤ}
use chiya.Date.{DateTime}

-- `std::time::SystemTime`: an instant so many nanoseconds (not 0) before the epoch, or a duration
-- since it.
pub data SystemTime : Type 0 where
  before_epoch : ℕ → SystemTime
  since_epoch : (secs nanos : ℕ) → SystemTime

-- `duration_since(UNIX_EPOCH).expect(..)` and `as_secs`.
abbrev pub seconds_since_epoch : SystemTime → Outcome ℕ
seconds_since_epoch (before_epoch n) = panic
seconds_since_epoch (since_epoch secs nanos) = value secs

-- `/` and `%` of `i64` by a positive divisor: they round towards zero.
abbrev pub div_i64 : ℤ → ℕ → ℤ
div_i64 (pos n) d = pos (n / d)
div_i64 (negsuc n) d = pos 0 -ℤ pos (suc n / d)

abbrev pub rem_i64 : ℤ → ℕ → ℤ
rem_i64 (pos n) d = pos (n % d)
rem_i64 (negsuc n) d = pos 0 -ℤ pos (suc n % d)

-- `a & b` of `i64` for `a` not negative. The bits of -(n + 1) are those of `n` inverted.
abbrev pub and_i64 : ℕ → ℤ → ℕ
and_i64 a (pos n) = bit_and a n
and_i64 a (negsuc n) = a - bit_and a n

abbrev pub leapoch : ℕ
leapoch = 11017

abbrev pub days_per_400_years : ℕ
days_per_400_years = 365 * 400 + 97

abbrev pub days_per_100_years : ℕ
days_per_100_years = 365 * 100 + 24

abbrev pub days_per_4_years : ℕ
days_per_4_years = 365 * 4 + 1

-- From March, as the year of the computation is.
abbrev pub months : List ℕ
months = 31 ∷ 30 ∷ 31 ∷ 30 ∷ 31 ∷ 31 ∷ 30 ∷ 31 ∷ 30 ∷ 31 ∷ 31 ∷ 29 ∷ []

-- The loop over `months`: the days left and the month reached.
pub month_loop : List ℕ → ℕ → ℕ → ℕ × ℕ
month_loop [] rem_days mon = (rem_days, mon)
month_loop (mon_len ∷ later) rem_days mon =
    if ltb rem_days mon_len
    then (rem_days, mon + 1)
    else month_loop later (rem_days - mon_len) (mon + 1)

-- What the day count comes to: the 400-year cycle (it may be -1), and the parts below it.
pub record Cycles : Type 0 where
  pub qc_cycles : ℤ
  pub c_cycles : ℕ
  pub q_cycles : ℕ
  pub rem_years : ℕ
  pub rem_days : ℕ

-- `if cycles == limit { cycles -= 1 }`
abbrev pub at_most : ℕ → ℕ → ℕ
at_most limit cycles = if cycles == limit then cycles - 1 else cycles

-- From the first remainder, once it is not negative.
pub split_cycles : ℤ → ℕ → Cycles
split_cycles qc rem_days =
    let c = at_most 4 (rem_days / days_per_100_years) in
    let rem_c = rem_days - c * days_per_100_years in
    let q = at_most 25 (rem_c / days_per_4_years) in
    let rem_q = rem_c - q * days_per_4_years in
    let y = at_most 4 (rem_q / 365) in
    record { qc_cycles = qc; c_cycles = c; q_cycles = q; rem_years = y; rem_days = rem_q - y * 365 }

pub cycles_of : ℤ → Cycles
cycles_of days =
    let qc = div_i64 days days_per_400_years in
    let rem_days = rem_i64 days days_per_400_years in
    if ltb_ℤ rem_days (pos 0)
    then split_cycles (qc -ℤ pos 1) (pos_part (rem_days +ℤ pos days_per_400_years))
    else split_cycles qc (pos_part rem_days)

-- `let mut year`. In Rust `&` binds weaker than `+`.
pub year_of : Cycles → ℕ
year_of y = and_i64 (2000 + y.rem_years + 4 * y.q_cycles + 100 * y.c_cycles + 400) y.qc_cycles

pub weekday_of : ℤ → ℕ
weekday_of days =
    let w_day = rem_i64 (pos 3 +ℤ days) 7 in
    if ltb_ℤ (pos 0) w_day then pos_part w_day else pos_part (w_day +ℤ pos 7)

-- The end of `from`, after the panics: `sec` is `sec_since_epoch`.
pub date_of_seconds : ℕ → DateTime
date_of_seconds sec =
    let days = pos (sec / 86400) -ℤ pos leapoch in
    let sec_in_day = sec % 86400 in
    let y = cycles_of days in
    let (left, mon) = month_loop months y.rem_days 0 in
    let late = ltb 12 (mon + 2) in
    record {
      sec_c = (sec_in_day % 60) % 256;
      min_c = (sec_in_day % 3600 / 60) % 256;
      hr_c = (sec_in_day / 3600) % 256;
      day_c = (left + 1) % 256;
      mon_c = (if late then mon - 10 else mon + 2) % 256;
      year_c = (if late then year_of y + 1 else year_of y) % 65536;
      wday_c = weekday_of days % 256;
    }

abbrev pub year_10000 : ℕ
year_10000 = 253402300800

-- `impl From<SystemTime> for DateTime`
unfoldable pub from_system_time : SystemTime → Outcome DateTime
from_system_time sys_t = do
  sec ← seconds_since_epoch sys_t
  assert (ltb sec year_10000)
  value (date_of_seconds sec)

pub is_leap_year : ℕ → Bool
is_leap_year y = y % 4 == 0 && (not (y % 100 == 0) || y % 400 == 0)

-- The `match` of `From<DateTime> for SystemTime`: the days before a month.
pub days_before_month : ℕ → Outcome ℕ
days_before_month m =
    if m == 1
    then value 0
    else if m == 2
    then value 31
    else if m == 3
    then value 59
    else if m == 4
    then value 90
    else if m == 5
    then value 120
    else if m == 6
    then value 151
    else if m == 7
    then value 181
    else if m == 8
    then value 212
    else if m == 9
    then value 243
    else if m == 10
    then value 273
    else if m == 11
    then value 304
    else if m == 12
    then value 334
    else panic

-- `leap_years`, in `u16`: below 1969 the first subtraction overflows.
pub leap_years : ℕ → Outcome ℕ
leap_years year = do
  assert (leb 1969 year)
  value ((year - 1 - 1968) / 4 - (year - 1 - 1900) / 100 + (year - 1 - 1600) / 400)

-- `days as u64 * 86400` overflows where `days` is negative.
pub to_system_time : DateTime → Outcome SystemTime
to_system_time cdt = do
  leap ← leap_years cdt.year_c
  before ← days_before_month cdt.mon_c
  let y_days = pos before +ℤ pos cdt.day_c -ℤ pos 1
  let y_days' = if is_leap_year cdt.year_c && ltb 2 cdt.mon_c then y_days +ℤ pos 1 else y_days
  let days = (pos cdt.year_c -ℤ pos 1970) *ℤ pos 365 +ℤ pos leap +ℤ y_days'
  assert (not (ltb_ℤ days (pos 0)))
  value (since_epoch (cdt.sec_c + cdt.min_c * 60 + cdt.hr_c * 3600 + pos_part days * 86400) 0)

-- The derived `PartialEq`.
pub eq_date : DateTime → DateTime → Bool
eq_date a b =
    a.sec_c == b.sec_c
    && a.min_c == b.min_c
    && a.hr_c == b.hr_c
    && a.day_c == b.day_c
    && a.mon_c == b.mon_c
    && a.year_c == b.year_c
    && a.wday_c == b.wday_c

-- The tests of `is_valid` before its call of the conversions.
abbrev pub fields_in_range : DateTime → Bool
fields_in_range d =
    ltb d.sec_c 60
    && ltb d.min_c 60
    && ltb d.hr_c 24
    && ltb 0 d.day_c
    && ltb d.day_c 32
    && ltb 0 d.mon_c
    && leb d.mon_c 12
    && leb 1970 d.year_c
    && leb d.year_c 9999

-- `&&` calls the conversions only if the tests before them pass.
pub is_valid : DateTime → Outcome Bool
is_valid d =
    if fields_in_range d
    then (do t ← to_system_time d; d' ← from_system_time t; value (eq_date d' d))
    else value false

-- `SystemTime::cmp`.
abbrev pub compare_time : SystemTime → SystemTime → Ordering
compare_time (before_epoch m) (before_epoch n) = compare n m
compare_time (before_epoch m) (since_epoch t n) = Ordering.lt
compare_time (since_epoch s n) (before_epoch m) = Ordering.gt
compare_time (since_epoch s n) (since_epoch t m) = elim (compare s t) [
  | Ordering.lt ↦ Ordering.lt
  | Ordering.eq ↦ compare n m
  | Ordering.gt ↦ Ordering.gt
]

-- `Ord for DateTime`.
pub cmp : DateTime → DateTime → Outcome Ordering
cmp a b = do s ← to_system_time a; t ← to_system_time b; value (compare_time s t)
