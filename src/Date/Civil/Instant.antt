-- ===== src/Date/Civil/Instant.antt =====
-- From an instant to a date and back.
use chiya.Prelude.{ℕ, ◌+◌, ◌-◌, ◌*◌, ◌/◌, ◌%◌, ◌≤◌, ◌<◌, ◌≡◌, arith, ltb, if◌then◌else◌}
use native.Mathlib.Decide.{dec_lt}
use chiya.Prelude.Int.{pos, negsuc, pos_part, ◌-ℤ◌, ◌+ℤ◌, ◌*ℤ◌}
use chiya.Date.Civil.{Cycles, months, month_loop, cycles_of, split_cycles, leapoch}
use chiya.Date.Civil.Fields.{day_number}
use chiya.Date.Civil.Year.{
  IsSplit, cycles_of_early, cycles_of_late, split_cycles-IsSplit, qc_cycles-split_cycles,
}
use chiya.Date.Civil.Calendar.{
  year_start-cycles, year_start-cycles_early, day_number-month_loop, day_number-month_loop_1970,
  month_of,
}

-- The year that the parts of a day count stand for: `&` read as `*`.
pub march_year : Cycles → ℕ
march_year y =
    pos_part
      (pos (2000 + y.rem_years + 4 * y.q_cycles + 100 * y.c_cycles) +ℤ y.qc_cycles *ℤ pos 400)

pub march_year_early :
    (c q a r : ℕ)
    → march_year
        (record { qc_cycles = negsuc 0; c_cycles = c; q_cycles = q; rem_years = a; rem_days = r })
      ≡ 1600 + a + 4 * q + 100 * c
unfolding march_year ◌+ℤ◌ ◌*ℤ◌
march_year_early c q a r = ground arith

pub march_year_late :
    (n c q a r : ℕ)
    → march_year
        (record { qc_cycles = pos n; c_cycles = c; q_cycles = q; rem_years = a; rem_days = r })
      ≡ 2000 + a + 4 * q + 100 * c + 400 * n
unfolding march_year ◌+ℤ◌ ◌*ℤ◌
march_year_late n c q a r = ground arith

-- The year proper: January and February belong to the next one.
unfoldable pub civil_year : Cycles → ℕ
civil_year y =
    if ltb 12 ((month_loop months y.rem_days 0).1 + 2) then march_year y + 1 else march_year y

abbrev pub day_of : Cycles → ℕ
day_of y =
    let (left, mon) = month_loop months y.rem_days 0 in
    day_number (civil_year y) (month_of mon) (left + 1)

day_of_late :
    (n r : ℕ) (y : Cycles) → IsSplit r y → y.qc_cycles ≡ pos n → day_of y ≡ 11017 + n * 146097 + r
unfolding civil_year
day_of_late n r y s e = ground (
  arith,
  march_year_late n y.c_cycles y.q_cycles y.rem_years y.rem_days,
  year_start-cycles n y.c_cycles y.q_cycles y.rem_years,
  day_number-month_loop (march_year y) y.rem_days,
)

day_of_early :
    (r : ℕ) (y : Cycles) → IsSplit r y → y.qc_cycles ≡ negsuc 0 → 135080 ≤ r → day_of y + 135080 ≡ r
unfolding civil_year
day_of_early r y s e h = ground (
  arith,
  march_year_early y.c_cycles y.q_cycles y.rem_years y.rem_days,
  year_start-cycles_early y.c_cycles y.q_cycles y.rem_years,
  day_number-month_loop (march_year y) y.rem_days,
  day_number-month_loop_1970 y.rem_days,
)

unfoldable pub civil_of : ℕ → Cycles
civil_of sec = cycles_of (pos (sec / 86400) -ℤ pos leapoch)

pub day_of-civil_of : (sec : ℕ) → day_of (civil_of sec) ≡ sec / 86400
unfolding civil_of
day_of-civil_of sec = elim (dec_lt (sec / 86400) 11017) [
  | yes h ↦ rw (cycles_of_early (sec / 86400) h) (early (sec / 86400) h)
  | no h ↦ rw (cycles_of_late (sec / 86400) (omega arith)) (late (sec / 86400) (omega arith))
]
  where
    early : (d : ℕ) → d < 11017 → day_of (split_cycles (negsuc 0) (d + 135080)) ≡ d
    early d h = omega (
      arith,
      day_of_early (d + 135080) _ (split_cycles-IsSplit (negsuc 0) (d + 135080) (omega arith))
          (qc_cycles-split_cycles (negsuc 0) _) (omega arith),
    )

    late :
        (d : ℕ)
        → 11017 ≤ d
        → day_of (split_cycles (pos ((d - 11017) / 146097)) ((d - 11017) % 146097)) ≡ d
    late d h = omega (
      arith,
      day_of_late ((d - 11017) / 146097) ((d - 11017) % 146097) _
          (split_cycles-IsSplit (pos _) _ (omega arith)) (qc_cycles-split_cycles (pos _) _),
    )
