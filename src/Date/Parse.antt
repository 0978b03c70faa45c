-- ===== src/Date/Parse.antt =====
-- `parse_imf_fixdate`, `parse_rfc850_date`, `parse_asctime` and `from_str` of
-- date/src/date_time.rs.
pub mod Never
pub mod Asctime
pub mod Ranges
use Prim.Native.String.{String}
use chiya.Prelude.{
  ℕ, ◌+◌, ◌-◌, ◌*◌, ◌/◌, ◌%◌, ◌≤◌, ◌<◌, Bool, true, false, not, ◌&&◌, ◌||◌, List, [], ◌∷◌, ltb, leb,
  ◌==◌, length, if◌then◌else◌, Option, none, some, Outcome, value,
}
use chiya.Prelude.Text.{bytes_of, eq_bytes}
use chiya.Date.{DateTime, Result, ok, err, panic, ◌>>=◌, ◌>>◌, or_else, reject_if}
use chiya.Date.Slice.{byte_at, slice, slice_from}
use chiya.Date.Digits.{to_int_1, to_int_2, to_int_4}
use chiya.Date.Civil.{is_valid}

-- The arms of a `match` on a slice against byte strings, the last of which returns the error.
pub match_name : List (String × ℕ) → List ℕ → Result ℕ
match_name [] s = err
match_name ((name, n) ∷ arms) s = if eq_bytes s (bytes_of name) then ok n else match_name arms s

-- `Ok(DateTime { .. })`, its fields read in the order of the source.
abbrev pub date_of :
    Result ℕ → Result ℕ → Result ℕ → Result ℕ → Result ℕ → Result ℕ → Result ℕ → Result DateTime
date_of sec min hr day mon year wday = do
  sec_c ← sec
  min_c ← min
  hr_c ← hr
  day_c ← day
  mon_c ← mon
  year_c ← year
  wday_c ← wday
  ok (record {
    sec_c = sec_c;
    min_c = min_c;
    hr_c = hr_c;
    day_c = day_c;
    mon_c = mon_c;
    year_c = year_c;
    wday_c = wday_c;
  })

abbrev imf_months : List (String × ℕ)
imf_months =
    (" Jan ", 1)
    ∷ (" Feb ", 2)
    ∷ (" Mar ", 3)
    ∷ (" Apr ", 4)
    ∷ (" May ", 5)
    ∷ (" Jun ", 6)
    ∷ (" Jul ", 7)
    ∷ (" Aug ", 8)
    ∷ (" Sep ", 9)
    ∷ (" Oct ", 10)
    ∷ (" Nov ", 11)
    ∷ (" Dec ", 12)
    ∷ []

abbrev imf_days : List (String × ℕ)
imf_days =
    ("Mon, ", 1)
    ∷ ("Tue, ", 2)
    ∷ ("Wed, ", 3)
    ∷ ("Thu, ", 4)
    ∷ ("Fri, ", 5)
    ∷ ("Sat, ", 6)
    ∷ ("Sun, ", 7)
    ∷ []

-- `||` reads a byte only if the tests before it fail.
infixr 30 ◌or◌
abbrev pub ◌or◌ : Result Bool → Result Bool → Result Bool
a or b = a >>= λ t. elim t [ true ↦ ok true | false ↦ b ]

-- `s[i] != c` and `s != name`
abbrev pub byte_ne : List ℕ → ℕ → ℕ → Result Bool
byte_ne s i c = byte_at s i >>= λ b. ok (not (b == c))

abbrev pub bytes_ne : Result (List ℕ) → String → Result Bool
bytes_ne s name = s >>= λ b. ok (not (eq_bytes b (bytes_of name)))

abbrev pub length_ne : List ℕ → ℕ → Result Bool
length_ne s n = ok (not (length s == n))

pub parse_imf_fixdate : List ℕ → Result DateTime
parse_imf_fixdate s = do
  malformed ←
      length_ne s 29
      or bytes_ne (slice_from s 25) "GMT"
      or byte_ne s 16 b' '
      or byte_ne s 19 b':'
      or byte_ne s 22 b':'
  reject_if malformed
  date_of (slice s 23 25 >>= to_int_2) (slice s 20 22 >>= to_int_2) (slice s 17 19 >>= to_int_2)
      (slice s 5 7 >>= to_int_2) (slice s 7 12 >>= match_name imf_months)
      (slice s 12 16 >>= to_int_4) (slice s 0 5 >>= match_name imf_days)

-- The local `wday` of `parse_rfc850_date`; a panic for `s[0..name.len()]` out of bounds.
abbrev wday : List ℕ → ℕ → String → Result (Option (ℕ × List ℕ))
wday s n name = do
  start ← slice s 0 (length (bytes_of name))
  rest ← slice_from s (length (bytes_of name))
  ok (if eq_bytes start (bytes_of name) then some (n, rest) else none)

-- The chain of `or_else`, closed by `ok_or(..)?`.
pub first_wday : List (String × ℕ) → List ℕ → Result (ℕ × List ℕ)
first_wday [] s = err
first_wday ((name, n) ∷ names) s =
    wday s n name >>= λ found. elim found [ some p ↦ ok p | none ↦ first_wday names s ]

abbrev pub rfc850_days : List (String × ℕ)
rfc850_days =
    ("Monday, ", 1)
    ∷ ("Tuesday, ", 2)
    ∷ ("Wednesday, ", 3)
    ∷ ("Thursday, ", 4)
    ∷ ("Friday, ", 5)
    ∷ ("Saturday, ", 6)
    ∷ ("Sunday, ", 7)
    ∷ []

abbrev rfc850_months : List (String × ℕ)
rfc850_months =
    ("-Jan-", 1)
    ∷ ("-Feb-", 2)
    ∷ ("-Mar-", 3)
    ∷ ("-Apr-", 4)
    ∷ ("-May-", 5)
    ∷ ("-Jun-", 6)
    ∷ ("-Jul-", 7)
    ∷ ("-Aug-", 8)
    ∷ ("-Sep-", 9)
    ∷ ("-Oct-", 10)
    ∷ ("-Nov-", 11)
    ∷ ("-Dec-", 12)
    ∷ []

-- The part of `parse_rfc850_date` after the day's name.
pub parse_rfc850_rest : ℕ × List ℕ → Result DateTime
parse_rfc850_rest (wday, s) = do
  malformed ←
      length_ne s 22 or byte_ne s 12 b':' or byte_ne s 15 b':' or bytes_ne (slice s 18 22) "GMT"
  reject_if malformed
  short ← slice s 7 9 >>= to_int_2
  let year = if ltb short 70 then short + 2000 else short + 1900
  date_of (slice s 16 18 >>= to_int_2) (slice s 13 15 >>= to_int_2) (slice s 10 12 >>= to_int_2)
      (slice s 0 2 >>= to_int_2) (slice s 2 7 >>= match_name rfc850_months) (ok year) (ok wday)

pub parse_rfc850_date : List ℕ → Result DateTime
parse_rfc850_date s = do
  reject_if (ltb (length s) 23)
  day ← first_wday rfc850_days s
  parse_rfc850_rest day

abbrev pub asctime_months : List (String × ℕ)
asctime_months =
    ("Jan ", 1)
    ∷ ("Feb ", 2)
    ∷ ("Mar ", 3)
    ∷ ("Apr ", 4)
    ∷ ("May ", 5)
    ∷ ("Jun ", 6)
    ∷ ("Jul ", 7)
    ∷ ("Aug ", 8)
    ∷ ("Sep ", 9)
    ∷ ("Oct ", 10)
    ∷ ("Nov ", 11)
    ∷ ("Dec ", 12)
    ∷ []

abbrev pub asctime_days : List (String × ℕ)
asctime_days =
    ("Mon ", 1)
    ∷ ("Tue ", 2)
    ∷ ("Wed ", 3)
    ∷ ("Thu ", 4)
    ∷ ("Fri ", 5)
    ∷ ("Sat ", 6)
    ∷ ("Sun ", 7)
    ∷ []

-- The day of `parse_asctime`: two digits, or a space and a digit.
abbrev pub asctime_day : List ℕ → Result ℕ
asctime_day x = do
  first ← byte_at x 0
  if first == b' ' then (byte_at x 1 >>= to_int_1) else to_int_2 x

asctime_fields : List ℕ → Result DateTime
asctime_fields s =
    date_of (slice s 17 19 >>= to_int_2) (slice s 14 16 >>= to_int_2) (slice s 11 13 >>= to_int_2)
      (slice s 8 10 >>= asctime_day) (slice s 4 8 >>= match_name asctime_months)
      (slice s 20 24 >>= to_int_4) (slice s 0 4 >>= match_name asctime_days)

pub parse_asctime : List ℕ → Result DateTime
parse_asctime s = do
  malformed ←
      length_ne s 24
      or byte_ne s 10 b' '
      or byte_ne s 13 b':'
      or byte_ne s 16 b':'
      or byte_ne s 19 b' '
  reject_if malformed
  asctime_fields s

-- `str::is_ascii` on the bytes of the text.
pub is_ascii : List ℕ → Bool
is_ascii [] = true
is_ascii (b ∷ s) = ltb b 128 && is_ascii s

-- `char::is_whitespace` on an ASCII byte.
abbrev is_whitespace : ℕ → Bool
is_whitespace b = b == 0x20 || leb 0x09 b && leb b 0x0d

pub trim_start : List ℕ → List ℕ
trim_start [] = []
trim_start (b ∷ s) = if is_whitespace b then trim_start s else b ∷ s

-- A byte at the front is kept if it is no space or something is kept behind it.
pub trim_end : List ℕ → List ℕ
trim_end [] = []
trim_end (b ∷ s) = elim (trim_end s) [
  | [] ↦ if is_whitespace b then [] else b ∷ []
  | c ∷ kept ↦ b ∷ c ∷ kept
]

-- A panic of `is_valid` is a panic of its caller.
abbrev pub lift_outcome : Outcome Bool → Result Bool
lift_outcome (value b) = ok b
lift_outcome Outcome.panic = panic

-- `FromStr for DateTime`, on the bytes of the text. `str::trim` is the two trims.
pub from_str : List ℕ → Result DateTime
from_str s = do
  reject_if (not (is_ascii s))
  let x = trim_end (trim_start s)
  date ← or_else (or_else (parse_imf_fixdate x) (parse_rfc850_date x)) (parse_asctime x)
  valid ← lift_outcome (is_valid date)
  reject_if (not valid)
  ok date
