-- ===== src/Date/Civil/Calendar.antt =====
-- The month, the day and the days of a year, from March on.
use chiya.Prelude.{
  ℕ, ◌+◌, ◌-◌, ◌*◌, ◌/◌, ◌≤◌, ◌<◌, ◌≡◌, refl, Bool, true, arith, ltb, ◌||◌, ◌==◌, if◌then◌else◌,
}
use chiya.Prelude.Table.{holds_below, holds_below_at}
use chiya.Date.Civil.{months, month_loop, is_leap_year}
use chiya.Date.Civil.Fields.{month_start, day_number}

-- The month, from the number of months after February.
abbrev pub month_of : ℕ → ℕ
month_of mon = if ltb 12 (mon + 2) then mon - 10 else mon + 2

abbrev pub leap_day : ℕ → ℕ
leap_day y = if is_leap_year y then 1 else 0

-- The first of January.
unfoldable pub year_start : ℕ → ℕ
year_start y = (y - 1970) * 365 + ((y - 1969) / 4 - (y - 1901) / 100 + (y - 1601) / 400)

pub year_start-suc : (y : ℕ) → 1970 ≤ y → year_start (y + 1) ≡ year_start y + 365 + leap_day y
unfolding year_start is_leap_year
year_start-suc y h = ground arith

-- The loop over the months on `r` days after the first of March.
pub record IsDay (r : ℕ) (left mon : ℕ) : Type 0 where
  pub mon_range : (1 ≤ mon) × (mon ≤ 12)
  pub left_le : left ≤ 30
  pub early : mon ≤ 10 → r + 59 ≡ month_start (mon + 2) + left
  pub late : 10 < mon → r ≡ 306 + month_start (mon - 10) + left

month_loop_range :
    (r : ℕ)
    → r ≤ 365
    → let (left, mon) = month_loop months r 0 in (1 ≤ mon) × (mon ≤ 12) × (left ≤ 30)
unfolding month_loop
month_loop_range r h = ground arith

abbrev early_test : ℕ → Bool
early_test r =
    let (left, mon) = month_loop months r 0 in ltb 10 mon || r + 59 == month_start (mon + 2) + left

early_table : holds_below 366 early_test ≡ true
unfolding holds_below month_loop month_start
early_table = refl

month_loop_early :
    (r : ℕ)
    → r ≤ 365
    → let (left, mon) = month_loop months r 0 in mon ≤ 10 → r + 59 ≡ month_start (mon + 2) + left
month_loop_early r h = ground (arith, holds_below_at 366 early_test r early_table (omega arith))

month_loop_late :
    (r : ℕ)
    → r ≤ 365
    → let (left, mon) = month_loop months r 0 in 10 < mon → r ≡ 306 + month_start (mon - 10) + left
unfolding month_loop month_start
month_loop_late r h = ground arith

pub month_loop_winter :
    (r : ℕ) → 306 ≤ r → r ≤ 365 → let (left, mon) = month_loop months r 0 in 10 < mon
unfolding month_loop
month_loop_winter r h h' = ground arith

pub month_loop-IsDay :
    (r : ℕ) → r ≤ 365 → IsDay r (month_loop months r 0).0 (month_loop months r 0).1
month_loop-IsDay r h =
    ground (arith, month_loop_range r h, month_loop_early r h, month_loop_late r h)

-- A day that the loop finds is the r-th after the first of March of year `y`.
pub day_number-month_loop :
    (y r : ℕ)
    → 1970 ≤ y
    → r ≤ 365
    → let (left, mon) = month_loop months r 0 in
      day_number (if ltb 12 (mon + 2) then y + 1 else y) (month_of mon) (left + 1)
      ≡ year_start y + 59 + leap_day y + r
unfolding day_number year_start
day_number-month_loop y r hy hr =
    let (left, mon) = month_loop months r 0 in
    ground (arith, month_loop-IsDay r hr, year_start-suc y hy)

-- The first of March of a year, counted from 2000-03-01 by cycles.
pub year_start-cycles :
    (n c q a : ℕ)
    → c ≤ 3
    → q ≤ 24
    → a ≤ 3
    → let y = 2000 + a + 4 * q + 100 * c + 400 * n in
      year_start y + 59 + leap_day y ≡ 11017 + n * 146097 + c * 36524 + q * 1461 + a * 365
unfolding year_start is_leap_year
year_start-cycles n c q a hc hq ha = ground arith

-- The same before 2000-03-01, in the cycle that began on 1600-03-01.
pub year_start-cycles_early :
    (c q a : ℕ)
    → c ≤ 3
    → q ≤ 24
    → a ≤ 3
    → let y = 1600 + a + 4 * q + 100 * c in
      1970 ≤ y → year_start y + 59 + leap_day y + 135080 ≡ c * 36524 + q * 1461 + a * 365
unfolding year_start is_leap_year
year_start-cycles_early c q a hc hq ha hy = ground arith

-- The first two months of 1970 belong to the March year before.
pub day_number-month_loop_1970 :
    (r : ℕ)
    → 306 ≤ r
    → r ≤ 364
    → let (left, mon) = month_loop months r 0 in
      (10 < mon) × (day_number 1970 (month_of mon) (left + 1) + 306 ≡ r)
unfolding day_number
day_number-month_loop_1970 r lo hi =
    let (left, mon) = month_loop months r 0 in
    ground (arith, month_loop-IsDay r (omega arith), month_loop_winter r lo)
