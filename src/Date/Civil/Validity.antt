-- ===== src/Date/Civil/Validity.antt =====
-- `is_valid` of date/src/date_time.rs.
use native.Mathlib.Decide.{dec_lt}
use chiya.Prelude.{
  ℕ, ◌/◌, ◌≤◌, ◌<◌, ◌≡◌, ◌≢◌, arith, true, false, value, Bool-cases, lt→ltb, ap, inl, inr,
}
use chiya.Date.{DateTime}
use chiya.Date.Civil.{
  date_of_seconds, from_system_time, year_10000, is_valid, eq_date, fields_in_range, is_leap_year,
}
use chiya.Date.Civil.Fields.{month_start, day_number, seconds_of, to_system_time-eq}
use chiya.Date.Civil.RoundTrip.{civil_of-IsCivil, civil_year-ge, year_c_early, year_c_late}

month_start-le : (m : ℕ) → month_start m ≤ 334
unfolding month_start
month_start-le m = ground arith

-- A date whose fields pass the tests lies before the year 10000, and before 2000-03-01 only if its
-- year is 2000 at most.
seconds_of_range :
    (d : DateTime)
    → fields_in_range d ≡ true
    → (seconds_of d < year_10000) × (seconds_of d / 86400 < 11017 → d.year_c ≤ 2000)
unfolding seconds_of day_number is_leap_year
seconds_of_range d h = ground (arith, month_start-le d.mon_c)

eq_date-false : (a b : DateTime) → a.year_c ≢ b.year_c → eq_date a b ≡ false
unfolding eq_date
eq_date-false a b h = ground arith

date_of_seconds-year_ne :
    (d : DateTime) → fields_in_range d ≡ true → (date_of_seconds (seconds_of d)).year_c ≢ d.year_c
date_of_seconds-year_ne d h =
    let r = seconds_of_range d h in
    let y = civil_year-ge _ _ (civil_of-IsCivil (seconds_of d)) in
    elim (dec_lt (seconds_of d / 86400) 11017) [
      | yes lt ↦ ground (arith, year_c_early (seconds_of d) lt)
      | no ge ↦ ground (arith, year_c_late (seconds_of d) r.0 (omega arith))
    ]

is_valid_passed : (d : DateTime) → fields_in_range d ≡ true → is_valid d ≡ value false
unfolding is_valid from_system_time
is_valid_passed d h =
    rw (h, to_system_time-eq d (ground arith) (ground arith) (ground arith) (ground arith))
      (rw (lt→ltb _ _ (seconds_of_range d h).0)
        (ap value (eq_date-false _ d (date_of_seconds-year_ne d h))))

-- `is_valid` does not panic, and rejects every date.
pub is_valid-false : (d : DateTime) → is_valid d ≡ value false
unfolding is_valid
is_valid-false d = elim (Bool-cases (fields_in_range d)) [
  | inl passed ↦ is_valid_passed d passed
  | inr failed ↦ rw failed
]
