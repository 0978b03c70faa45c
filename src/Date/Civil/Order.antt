-- ===== src/Date/Civil/Order.antt =====
-- `Ord for DateTime` of date/src/date_time.rs against the order of the calendar.
use Prim.Native.Nat.{compare, Ordering}
use chiya.Prelude.{
  ℕ, ◌+◌, ◌≤◌, ◌<◌, ◌≡◌, refl, arith, ltb, leb, Bool, true, false, ◌&&◌, ◌||◌, ◌==◌, if◌then◌else◌,
  value, suc,
}
use native.Mathlib.Nat.{le_refl, le_trans}
use native.Mathlib.Decide.{le_ind}
use native.Mathlib.Numerals.{add-one}
use chiya.Prelude.Table.{holds_below, holds_below_at}
use chiya.Date.{DateTime}
use chiya.Date.Civil.{cmp, is_leap_year}
use chiya.Date.Civil.Fields.{month_start, day_number, seconds_of, to_system_time-eq}
use chiya.Date.Civil.Calendar.{year_start, year_start-suc}

-- The days of a month, in a leap year or another.
unfoldable pub days_in_month : Bool → ℕ → ℕ
days_in_month leap m =
    if m == 2
    then (if leap then 29 else 28)
    else if m == 4 || m == 6 || m == 9 || m == 11
    then 30
    else 31

-- A date of the calendar from 1970 on, at a time of the day.
pub record IsCalendar (d : DateTime) : Type 0 where
  pub year_in : 1970 ≤ d.year_c
  pub month_in : (1 ≤ d.mon_c) × (d.mon_c ≤ 12)
  pub day_in : (1 ≤ d.day_c) × (d.day_c ≤ days_in_month (is_leap_year d.year_c) d.mon_c)
  pub time_in : (d.hr_c < 24) × (d.min_c < 60) × (d.sec_c < 60)

abbrev then_by : Ordering → Ordering → Ordering
then_by Ordering.lt o = Ordering.lt
then_by Ordering.eq o = o
then_by Ordering.gt o = Ordering.gt

-- By year, month, day, hour, minute and second, in this order.
pub calendar_compare : DateTime → DateTime → Ordering
calendar_compare a b = then_by (compare a.year_c b.year_c) (
    then_by (compare a.mon_c b.mon_c) (
      then_by (compare a.day_c b.day_c) (
        then_by (compare a.hr_c b.hr_c)
          (then_by (compare a.min_c b.min_c) (compare a.sec_c b.sec_c)))))

-- The days of the year before a month.
month_first : Bool → ℕ → ℕ
month_first leap m = month_start m + (if leap && ltb 2 m then 1 else 0)

-- A month ends before a later one begins, and in its year.
follows : Bool → ℕ → ℕ → Bool
follows leap m n = leb n m || leb (month_first leap m + days_in_month leap m) (month_first leap n)

follows_table :
    (leap : Bool) → holds_below 13 (λ m. m == 0 || holds_below 13 (follows leap m)) ≡ true
unfolding holds_below follows month_first month_start days_in_month
follows_table true = refl
follows_table false = refl

month_first_mono :
    (leap : Bool) (m n : ℕ)
    → 1 ≤ m
    → m < n
    → n < 13
    → month_first leap m + days_in_month leap m ≤ month_first leap n
unfolding follows
month_first_mono leap m n lo lt hi =
    let row =
      holds_below_at 13 (λ k. k == 0 || holds_below 13 (follows leap k)) m (follows_table leap)
        (omega arith) in
    ground (arith, holds_below_at 13 (follows leap m) n)

inside : Bool → ℕ → Bool
inside leap m =
    m == 0 || leb (month_first leap m + days_in_month leap m) (365 + (if leap then 1 else 0))

inside_table : (leap : Bool) → holds_below 13 (inside leap) ≡ true
unfolding holds_below inside month_first month_start days_in_month
inside_table true = refl
inside_table false = refl

month_first-le :
    (leap : Bool) (m : ℕ)
    → 1 ≤ m
    → m < 13
    → month_first leap m + days_in_month leap m ≤ 365 + (if leap then 1 else 0)
unfolding inside
month_first-le leap m lo hi = ground (arith, holds_below_at 13 (inside leap) m (inside_table leap))

day_number-eq :
    (y m d : ℕ) → 1 ≤ d → day_number y m d + 1 ≡ year_start y + month_first (is_leap_year y) m + d
unfolding day_number year_start month_first
day_number-eq y m d hd = omega arith

year_start-le_suc : (y : ℕ) → 1970 ≤ y → year_start y ≤ year_start (suc y)
year_start-le_suc y h = rw (← add-one y) (omega (arith, year_start-suc y h))

year_start_mono : (y z : ℕ) → 1970 ≤ y → y + 1 ≤ z → year_start (y + 1) ≤ year_start z
year_start_mono y z h =
    le_ind (λ k. year_start (y + 1) ≤ year_start k) (le_refl _)
      (λ k le ih. le_trans ih (year_start-le_suc k (omega arith))) z

-- An earlier day has a smaller number.
day_number_year :
    (y m d z n e : ℕ)
    → 1970 ≤ y
    → y < z
    → 1 ≤ m
    → m < 13
    → 1 ≤ d
    → d ≤ days_in_month (is_leap_year y) m
    → 1 ≤ e
    → day_number y m d < day_number z n e
day_number_year y m d z n e hy lt lo hi hd hd' he = omega (
  arith,
  day_number-eq y m d hd,
  day_number-eq z n e he,
  year_start-suc y hy,
  year_start_mono y z hy (omega arith),
  month_first-le (is_leap_year y) m lo hi,
)

day_number_month :
    (y m d n e : ℕ)
    → m < n
    → 1 ≤ m
    → n < 13
    → 1 ≤ d
    → d ≤ days_in_month (is_leap_year y) m
    → 1 ≤ e
    → day_number y m d < day_number y n e
day_number_month y m d n e lt lo hi hd hd' he = omega (
  arith,
  day_number-eq y m d hd,
  day_number-eq y n e he,
  month_first_mono (is_leap_year y) m n lo lt hi,
)

abbrev day_of_date : DateTime → ℕ
day_of_date a = day_number a.year_c a.mon_c a.day_c

module _ {a b : DateTime} (va : IsCalendar a) (vb : IsCalendar b) where
  day_lt_of_year : a.year_c < b.year_c → day_of_date a < day_of_date b
  day_lt_of_year h =
      day_number_year a.year_c a.mon_c a.day_c b.year_c b.mon_c b.day_c va.year_in h va.month_in.0
        (omega arith) va.day_in.0 va.day_in.1 vb.day_in.0

  day_lt_of_month : a.year_c ≡ b.year_c → a.mon_c < b.mon_c → day_of_date a < day_of_date b
  day_lt_of_month e h = rw (← e) (
      day_number_month a.year_c a.mon_c a.day_c b.mon_c b.day_c h va.month_in.0 (omega arith)
        va.day_in.0 va.day_in.1 vb.day_in.0)

  day_lt_of_day :
      a.year_c ≡ b.year_c → a.mon_c ≡ b.mon_c → a.day_c < b.day_c → day_of_date a < day_of_date b
  day_lt_of_day e m h =
      rw (← e, ← m)
        (omega (
          arith,
          day_number-eq a.year_c a.mon_c a.day_c va.day_in.0,
          day_number-eq a.year_c a.mon_c b.day_c vb.day_in.0,
        ))

compare_seconds :
    {a b : DateTime}
    → IsCalendar a
    → IsCalendar b
    → compare (seconds_of a) (seconds_of b) ≡ calendar_compare a b
unfolding seconds_of calendar_compare
compare_seconds {a} {b} va vb = ground (
  arith,
  day_lt_of_year va vb,
  day_lt_of_year vb va,
  day_lt_of_month va vb,
  day_lt_of_month vb va,
  day_lt_of_day va vb,
  day_lt_of_day vb va,
)

-- Two dates of the calendar from 1970 on compare by year, month, day, hour, minute and second: the
-- weekday is not read.
pub cmp-calendar_compare :
    {a b : DateTime} → IsCalendar a → IsCalendar b → cmp a b ≡ value (calendar_compare a b)
unfolding cmp
cmp-calendar_compare {a} {b} va vb =
    rw
      (
        to_system_time-eq a va.year_in va.month_in.0 va.month_in.1 va.day_in.0,
        to_system_time-eq b vb.year_in vb.month_in.0 vb.month_in.1 vb.day_in.0,
      )
      (ground (arith, compare_seconds va vb))
