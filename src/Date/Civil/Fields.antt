-- ===== src/Date/Civil/Fields.antt =====
-- The other fields of `From<SystemTime> for DateTime`, and the conversion back.
use chiya.Prelude.{ℕ, ◌+◌, ◌-◌, ◌*◌, ◌/◌, ◌≤◌, ◌≡◌, arith, ltb, value, ◌&&◌, if◌then◌else◌}
use chiya.Prelude.Int.{◌-ℤ◌, ◌+ℤ◌, ◌*ℤ◌}
use chiya.Date.{DateTime}
use chiya.Date.Civil.{days_before_month, leap_years, is_leap_year, to_system_time, since_epoch}

unfoldable pub month_start : ℕ → ℕ
month_start m =
    if ltb m 2
    then 0
    else if ltb m 3
    then 31
    else if ltb m 4
    then 59
    else if ltb m 5
    then 90
    else if ltb m 6
    then 120
    else if ltb m 7
    then 151
    else if ltb m 8
    then 181
    else if ltb m 9
    then 212
    else if ltb m 10
    then 243
    else if ltb m 11
    then 273
    else if ltb m 12
    then 304
    else 334

days_before_month-eq : (m : ℕ) → 1 ≤ m → m ≤ 12 → days_before_month m ≡ value (month_start m)
unfolding days_before_month month_start
days_before_month-eq m lo hi = ground arith

-- Days since the epoch of a date, in plain arithmetic.
unfoldable pub day_number : ℕ → ℕ → ℕ → ℕ
day_number y m d =
    (y - 1970) * 365
    + ((y - 1969) / 4 - (y - 1901) / 100 + (y - 1601) / 400)
    + month_start m
    + (d - 1)
    + (if is_leap_year y && ltb 2 m then 1 else 0)

unfoldable pub seconds_of : DateTime → ℕ
seconds_of d = d.sec_c + d.min_c * 60 + d.hr_c * 3600 + day_number d.year_c d.mon_c d.day_c * 86400

leap_years-eq :
    (y : ℕ) → 1970 ≤ y → leap_years y ≡ value ((y - 1969) / 4 - (y - 1901) / 100 + (y - 1601) / 400)
unfolding leap_years
leap_years-eq y h = ground arith

-- From 1970 on, in a month of the year and on a positive day, the conversion does not panic, and
-- gives the seconds of the day number.
pub to_system_time-eq :
    (d : DateTime)
    → 1970 ≤ d.year_c
    → 1 ≤ d.mon_c
    → d.mon_c ≤ 12
    → 1 ≤ d.day_c
    → to_system_time d ≡ value (since_epoch (seconds_of d) 0)
unfolding to_system_time seconds_of day_number ◌-ℤ◌ ◌+ℤ◌ ◌*ℤ◌
to_system_time-eq d hy lo hi hd =
    rw (leap_years-eq _ hy, days_before_month-eq _ lo hi) (ground arith)
