-- ===== src/Date/Format.antt =====
-- `Display for DateTime` of date/src/date_time.rs.
pub mod Layout
use Prim.Native.String.{String}
use chiya.Prelude.{
  ℕ, ◌+◌, ◌-◌, ◌*◌, ◌/◌, ◌%◌, ◌≤◌, ◌<◌, Bool, true, false, List, [], ◌∷◌, ◌==◌, set, get_or,
  if◌then◌else◌, Outcome, value, panic, ◌>>=◌, ◌>>◌,
}
use chiya.Prelude.Text.{bytes_of}
use chiya.Date.{DateTime}

-- A `match` on a number that is `unreachable!` past its arms.
pub name_or_panic : List (ℕ × String) → ℕ → Outcome (List ℕ)
name_or_panic [] n = panic
name_or_panic ((m, name) ∷ arms) n = if n == m then value (bytes_of name) else name_or_panic arms n

abbrev pub day_arms : List (ℕ × String)
day_arms =
    (1, "Mon") ∷ (2, "Tue") ∷ (3, "Wed") ∷ (4, "Thu") ∷ (5, "Fri") ∷ (6, "Sat") ∷ (7, "Sun") ∷ []

abbrev pub month_arms : List (ℕ × String)
month_arms =
    (1, "Jan")
    ∷ (2, "Feb")
    ∷ (3, "Mar")
    ∷ (4, "Apr")
    ∷ (5, "May")
    ∷ (6, "Jun")
    ∷ (7, "Jul")
    ∷ (8, "Aug")
    ∷ (9, "Sep")
    ∷ (10, "Oct")
    ∷ (11, "Nov")
    ∷ (12, "Dec")
    ∷ []

-- The writes `buf[i] = v`, in order; every index is below 29.
pub writes : List ℕ → List (ℕ × ℕ) → List ℕ
writes buf [] = buf
writes buf ((i, v) ∷ later) = writes (set buf i v) later

-- The bytes that `write_str` gets. A byte is at most `b'0' + 65`: no addition overflows, and
-- `from_utf8` succeeds on them since they are ASCII.
pub fmt : DateTime → Outcome (List ℕ)
fmt d = do
  w_day ← name_or_panic day_arms d.wday_c
  mon ← name_or_panic month_arms d.mon_c
  value (
      writes (bytes_of "   , 00     0000 00:00:00 GMT") (
        (0, get_or w_day 0 0)
        ∷ (1, get_or w_day 1 0)
        ∷ (2, get_or w_day 2 0)
        ∷ (5, b'0' + d.day_c / 10)
        ∷ (6, b'0' + d.day_c % 10)
        ∷ (8, get_or mon 0 0)
        ∷ (9, get_or mon 1 0)
        ∷ (10, get_or mon 2 0)
        ∷ (12, b'0' + d.year_c / 1000 % 256)
        ∷ (13, b'0' + d.year_c / 100 % 10 % 256)
        ∷ (14, b'0' + d.year_c / 10 % 10 % 256)
        ∷ (15, b'0' + d.year_c % 10 % 256)
        ∷ (17, b'0' + d.hr_c / 10)
        ∷ (18, b'0' + d.hr_c % 10)
        ∷ (20, b'0' + d.min_c / 10)
        ∷ (21, b'0' + d.min_c % 10)
        ∷ (23, b'0' + d.sec_c / 10)
        ∷ (24, b'0' + d.sec_c % 10)
        ∷ []))
