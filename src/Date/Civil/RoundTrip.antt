-- ===== src/Date/Civil/RoundTrip.antt =====
-- The whole conversion: which fields of the date are right, and what becomes of the year.
use native.Mathlib.Decide.{dec_lt}
use chiya.Prelude.{
  ◌⊎◌, inl, inr, ℕ, ◌+◌, ◌-◌, ◌*◌, ◌/◌, ◌%◌, ◌^◌, ◌≤◌, ◌<◌, ◌≡◌, refl, ap, arith, value, panic, ◌∙◌,
}
use chiya.Prelude.Int.{◌-ℤ◌, ◌+ℤ◌, pos, negsuc}
use chiya.Date.{DateTime, InRange}
use chiya.Date.Civil.{
  Cycles, months, month_loop, date_of_seconds, from_system_time, to_system_time, since_epoch,
  SystemTime, weekday_of, before_epoch, year_10000, year_of,
}
use chiya.Date.Civil.Fields.{seconds_of, to_system_time-eq}
use chiya.Date.Civil.Year.{
  IsSplit, cycles_of_early, cycles_of_late, split_cycles-IsSplit, qc_cycles-split_cycles,
  year_of_early, year_of_late,
}
use chiya.Date.Civil.Calendar.{month_of, month_loop-IsDay, month_loop_winter}
use chiya.Date.Civil.Instant.{
  civil_of, civil_year, march_year, day_of-civil_of, march_year_early, march_year_late,
}

-- What is known of the parts of an instant's day count.
pub record IsCivil (day : ℕ) (y : Cycles) : Type 0 where
  pub r : ℕ
  pub split : IsSplit r y
  pub early : day < 11017 → (y.qc_cycles ≡ negsuc 0) × (r ≡ day + 135080)
  pub late : 11017 ≤ day → (y.qc_cycles ≡ pos ((day - 11017) / 146097))

pub civil_of-IsCivil : (sec : ℕ) → IsCivil (sec / 86400) (civil_of sec)
unfolding civil_of
civil_of-IsCivil sec = elim (dec_lt (sec / 86400) 11017) [
  | yes h ↦ rw (cycles_of_early (sec / 86400) h) (record {
    r = sec / 86400 + 135080;
    split = split_cycles-IsSplit (negsuc 0) _ (omega arith);
    early = λ _. (qc_cycles-split_cycles (negsuc 0) _, refl);
    late = λ h'. absurd (omega arith);
  })
  | no h ↦ rw (cycles_of_late (sec / 86400) (omega arith)) (record {
    r = (sec / 86400 - 11017) % 146097;
    split = split_cycles-IsSplit _ _ (omega arith);
    early = λ h'. absurd (h h');
    late = λ _. qc_cycles-split_cycles _ _;
  })
]

-- The year and the month that the day count stands for are those of a date since 1970.
pub civil_year-ge : (day : ℕ) (y : Cycles) → IsCivil day y → 1970 ≤ civil_year y
unfolding civil_year
civil_year-ge day y v = elim (dec_lt day 11017) [
  | yes h ↦ ground (
    arith,
    march_year_early y.c_cycles y.q_cycles y.rem_years y.rem_days,
    v.early h,
    month_loop_winter y.rem_days,
  )
  | no h ↦ ground (
    arith,
    march_year_late ((day - 11017) / 146097) y.c_cycles y.q_cycles y.rem_years y.rem_days,
    v.late (omega arith),
  )
]

march_year_le : (day : ℕ) (y : Cycles) → IsCivil day y → day < 11017 → march_year y ≤ 1999
march_year_le day y v h =
    let s = v.split in
    let e = v.early h in
    ground (arith, march_year_early y.c_cycles y.q_cycles y.rem_years y.rem_days)

year_of-civil_year :
    (day : ℕ) (y : Cycles)
    → IsCivil day y
    → (day < 11017 → year_of y ≡ march_year y + 800)
      × (11017 ≤ day → year_of y ≤ (day - 11017) / 146097)
year_of-civil_year day y v = (
  λ h. omega (arith, year_of_early y v.split (v.early h).0, early h),
  λ h. year_of_late _ y (v.late h),
)
  where
    early : day < 11017 → march_year y ≡ 1600 + y.rem_years + 4 * y.q_cycles + 100 * y.c_cycles
    early h =
        ground (arith, march_year_early y.c_cycles y.q_cycles y.rem_years y.rem_days, v.early h)

pub year_c_early :
    (sec : ℕ) → sec / 86400 < 11017 → (date_of_seconds sec).year_c ≡ civil_year (civil_of sec) + 800
unfolding date_of_seconds civil_year civil_of
year_c_early sec h =
    let v = civil_of-IsCivil sec in
    ground (arith, (year_of-civil_year _ _ v).0 h, march_year_le _ _ v h)

pub year_c_late :
    (sec : ℕ) → sec < year_10000 → 11017 ≤ sec / 86400 → (date_of_seconds sec).year_c ≤ 20
unfolding date_of_seconds civil_of
year_c_late sec lt h =
    let v = civil_of-IsCivil sec in ground (arith, (year_of-civil_year _ _ v).1 h)

pub wday_c-eq : (sec : ℕ) → (date_of_seconds sec).wday_c ≡ (sec / 86400 + 3) % 7 + 1
unfolding date_of_seconds weekday_of ◌-ℤ◌ ◌+ℤ◌
wday_c-eq sec = ground arith

year_c-lt : (sec : ℕ) → (date_of_seconds sec).year_c < 2 ^ 16
unfolding date_of_seconds
year_c-lt sec = omega arith

month_range :
    (r : ℕ)
    → r ≤ 365
    → (1 ≤ month_of (month_loop months r 0).1) × (month_of (month_loop months r 0).1 ≤ 12)
month_range r h = ground (arith, month_loop-IsDay r h)

fields_of :
    (sec : ℕ)
    → let y = civil_of sec in
      let (left, mon) = month_loop months y.rem_days 0 in
      let d = date_of_seconds sec in
      sec < year_10000
      → (d.day_c ≡ left + 1)
        × (d.mon_c ≡ month_of mon)
        × (d.sec_c + d.min_c * 60 + d.hr_c * 3600 ≡ sec % 86400)
        × (d.sec_c < 60)
        × (d.min_c < 60)
        × (d.hr_c < 24)
unfolding date_of_seconds civil_of
fields_of sec h =
    let v = civil_of-IsCivil sec in
    ground (
      arith,
      v.split,
      month_loop-IsDay (civil_of sec).rem_days,
      month_range (civil_of sec).rem_days,
    )

-- The fields stay inside their types, and the names of the day and of the month exist.
pub date_of_seconds-ranges :
    (sec : ℕ)
    → sec < year_10000
    → let d = date_of_seconds sec in
      InRange d × ((1 ≤ d.wday_c) × (d.wday_c ≤ 7)) × ((1 ≤ d.mon_c) × (d.mon_c ≤ 12))
date_of_seconds-ranges sec h =
    let v = civil_of-IsCivil sec in
    let w = wday_c-eq sec in
    let f = fields_of sec h in
    let m = month_range (civil_of sec).rem_days v.split.rem_le in
    (
      record {
        sec_u8 = omega arith;
        min_u8 = omega arith;
        hr_u8 = omega arith;
        day_u8 = omega (arith, month_loop-IsDay (civil_of sec).rem_days v.split.rem_le);
        mon_u8 = omega arith;
        year_u16 = year_c-lt sec;
        wday_u8 = omega arith;
      },
      omega arith,
      omega arith,
    )

-- The date of an instant with its year put right.
pub mend_year : ℕ → DateTime → DateTime
mend_year sec d = record d { year_c = civil_year (civil_of sec) }

year_c_split :
    (sec : ℕ)
    → sec < year_10000
    → let d = date_of_seconds sec in
      (sec / 86400 < 11017) × (d.year_c ≡ (mend_year sec d).year_c + 800)
      ⊎ (11017 ≤ sec / 86400) × (d.year_c ≤ 20)
unfolding mend_year
year_c_split sec h = elim (dec_lt (sec / 86400) 11017) [
  | yes lt ↦ inl (lt, year_c_early sec lt)
  | no ge ↦ inr (omega arith, year_c_late sec h (omega arith))
]

seconds_of-mend_year :
    (sec : ℕ) → sec < year_10000 → seconds_of (mend_year sec (date_of_seconds sec)) ≡ sec
unfolding mend_year seconds_of
seconds_of-mend_year sec h = ground (arith, fields_of sec h, day_of-civil_of sec)

to_system_time-date_of_seconds :
    (sec : ℕ)
    → sec < year_10000
    → to_system_time (mend_year sec (date_of_seconds sec)) ≡ value (since_epoch sec 0)
unfolding mend_year
to_system_time-date_of_seconds sec h =
    let v = civil_of-IsCivil sec in
    let f = fields_of sec h in
    let m = month_range (civil_of sec).rem_days v.split.rem_le in
    to_system_time-eq (mend_year sec (date_of_seconds sec)) (civil_year-ge _ _ v) (omega arith)
      (omega arith) (omega arith)
    ∙ ap (λ k. value (since_epoch k 0)) (seconds_of-mend_year sec h)

-- For an instant before the year 10000, with any nanoseconds, the conversion to a date does not
-- panic; with the year of the calendar in place of its own the date converts back to the seconds
-- of the instant; its weekday is that of the day count; its year is 800 too large before
-- 2000-03-01, and at most 20 from then on.
pub from_system_time_fields :
    (sec nanos : ℕ)
    → sec < year_10000
    → (d : DateTime) × (from_system_time (since_epoch sec nanos) ≡ value d)
      × (to_system_time (mend_year sec d) ≡ value (since_epoch sec 0))
      × (d.wday_c ≡ (sec / 86400 + 3) % 7 + 1)
      × ((sec / 86400 < 11017) × (d.year_c ≡ (mend_year sec d).year_c + 800)
          ⊎ (11017 ≤ sec / 86400) × (d.year_c ≤ 20))
unfolding from_system_time
from_system_time_fields sec nanos h = (
  date_of_seconds sec,
  ground arith,
  to_system_time-date_of_seconds sec h,
  wday_c-eq sec,
  year_c_split sec h,
)

-- Before the epoch, and from the year 10000 on, the conversion to a date panics.
pub from_system_time-panic :
    (t : SystemTime)
    → ((n : ℕ) × (t ≡ before_epoch n))
      ⊎ ((sec : ℕ) × (nanos : ℕ) × (t ≡ since_epoch sec nanos) × (year_10000 ≤ sec))
    → from_system_time t ≡ panic
unfolding from_system_time
from_system_time-panic t (inl (n, e)) = rw e
from_system_time-panic t (inr (sec, nanos, e, h)) = rw e (ground arith)
