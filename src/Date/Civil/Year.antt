-- ===== src/Date/Civil/Year.antt =====
-- The year that `From<SystemTime> for DateTime` computes.
use chiya.Prelude.{ℕ, ◌+◌, ◌-◌, ◌*◌, ◌/◌, ◌%◌, ◌≤◌, ◌<◌, ◌≡◌, refl, arith}
use chiya.Prelude.Bits.{bit_and-le, bit_and-zero}
use chiya.Prelude.Int.{ℤ, pos, negsuc, ◌-ℤ◌, ◌+ℤ◌}
use chiya.Date.Civil.{Cycles, split_cycles, cycles_of, year_of, leapoch, at_most}

-- Before 2000-03-01 the 400-year cycle is -1, and from then on it counts from 0.
pub cycles_of_early :
    (d : ℕ) → d < 11017 → cycles_of (pos d -ℤ pos leapoch) ≡ split_cycles (negsuc 0) (d + 135080)
unfolding cycles_of ◌-ℤ◌ ◌+ℤ◌
cycles_of_early d h = ground arith

pub cycles_of_late :
    (d : ℕ)
    → 11017 ≤ d
    → cycles_of (pos d -ℤ pos leapoch)
      ≡ split_cycles (pos ((d - 11017) / 146097)) ((d - 11017) % 146097)
unfolding cycles_of ◌-ℤ◌
cycles_of_late d h = ground arith

-- The parts of a split are those of the calendar: at most 3 centuries of a cycle, 24 quadrennia, 3
-- years, and 366 days in the last year, which begins in March; they add up to the days split.
pub record IsSplit (r : ℕ) (y : Cycles) : Type 0 where
  pub c_le : y.c_cycles ≤ 3
  pub q_le : y.q_cycles ≤ 24
  pub y_le : y.rem_years ≤ 3
  pub rem_le : y.rem_days ≤ 365
  pub rem_short : y.rem_years < 3 → y.rem_days ≤ 364
  pub sum_is : y.c_cycles * 36524 + y.q_cycles * 1461 + y.rem_years * 365 + y.rem_days ≡ r

at_most-bounds : (limit cycles : ℕ) → cycles ≤ limit → 0 < limit → at_most limit cycles < limit
at_most-bounds limit cycles h p = ground arith

pub split_cycles-IsSplit : (qc : ℤ) (r : ℕ) → r < 146097 → IsSplit r (split_cycles qc r)
unfolding split_cycles
split_cycles-IsSplit qc r h = ground arith

pub year_of_early :
    {r : ℕ} (y : Cycles)
    → IsSplit r y
    → y.qc_cycles ≡ negsuc 0
    → year_of y ≡ 2400 + y.rem_years + 4 * y.q_cycles + 100 * y.c_cycles
unfolding year_of
year_of_early y h e = rw e (rw bit_and-zero (omega arith))

pub year_of_late : (n : ℕ) (y : Cycles) → y.qc_cycles ≡ pos n → year_of y ≤ n
unfolding year_of
year_of_late n y e = rw e (bit_and-le _ n)

pub qc_cycles-split_cycles : (qc : ℤ) (r : ℕ) → (split_cycles qc r).qc_cycles ≡ qc
unfolding split_cycles
qc_cycles-split_cycles qc r = refl
