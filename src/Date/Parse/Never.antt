-- ===== src/Date/Parse/Never.antt =====
-- What no text can be: an IMF or RFC 850 date to its parser, and a valid date to `from_str`.
use Prim.Native.String.{String}
use chiya.Prelude.{
  ℕ, ◌+◌, ◌-◌, ◌≤◌, ◌≡◌, ◌≢◌, refl, inl, inr, false, not, List, [], ◌∷◌, ltb, length, arith, take,
  drop, get_or, length-drop, Bool-cases,
}
use chiya.Prelude.Text.{bytes_of, eq_bytes, eq_bytes-length}
use chiya.Date.{DateTime, Result, ok, err, panic, ◌>>=◌, ◌>>◌, reject_if}
use chiya.Date.Slice.{slice, slice_from, byte_at-eq, slice-eq, length-slice}
use chiya.Date.Digits.{to_int_1, to_int_2, to_int_4}
use chiya.Date.Civil.{is_valid}
use chiya.Date.Civil.Validity.{is_valid-false}
use chiya.Date.Parse.{
  match_name, parse_imf_fixdate, parse_rfc850_date, parse_rfc850_rest, first_wday, parse_asctime,
  asctime_fields, from_str, asctime_day, asctime_months, asctime_days, trim_start, trim_end, wday,
  rfc850_days, date_of, lift_outcome,
}

eq_bytes_gmt : (s : List ℕ) → length s ≡ 4 → eq_bytes s (bytes_of "GMT") ≡ false
eq_bytes_gmt s h = elim (Bool-cases (eq_bytes s (bytes_of "GMT"))) [
  | inl e ↦ absurd (omega (arith, eq_bytes-length s _ e))
  | inr e ↦ e
]

-- The parser of IMF dates rejects every text: it compares the four bytes from 25 on with the three
-- of `GMT`.
pub parse_imf_fixdate-err : (s : List ℕ) → parse_imf_fixdate s ≡ err
unfolding parse_imf_fixdate slice_from
parse_imf_fixdate-err s = ground (arith, eq_bytes_gmt (drop 25 s), length-drop 25 s)

parse_rfc850_rest-err : (p : ℕ × List ℕ) → parse_rfc850_rest p ≡ err
unfolding parse_rfc850_rest
parse_rfc850_rest-err (n, s) = ground (
  arith,
  eq_bytes_gmt (take 4 (drop 18 s)),
  length-slice s 18 22,
  slice-eq s 18 22,
  byte_at-eq s 12,
  byte_at-eq s 15,
)

abbrev Fits : List (String × ℕ) → ℕ → Type 0
Fits [] n = Unit {0}
Fits ((name, day) ∷ names) n = (length (bytes_of name) ≤ n) × Fits names n

first_wday-ne_panic :
    (names : List (String × ℕ)) (s : List ℕ) → Fits names (length s) → first_wday names s ≢ panic
unfolding first_wday slice_from
first_wday-ne_panic [] s h = λ e. cc
first_wday-ne_panic ((name, day) ∷ names) s h =
    ground (arith, slice-eq s 0 (length (bytes_of name)), first_wday-ne_panic names s h.1)

-- The parser of RFC 850 dates rejects every text, without a panic: it compares its bytes 18 to 22
-- with the three of `GMT`.
pub parse_rfc850_date-err : (s : List ℕ) → parse_rfc850_date s ≡ err
unfolding parse_rfc850_date
parse_rfc850_date-err s = elim (Bool-cases (ltb (length s) 23)) [
  | inl short ↦ rw short
  | inr long ↦ rw long (
      after_wday (first_wday rfc850_days s)
        (first_wday-ne_panic rfc850_days s (fits (ground arith))))
]
  where
    after_wday : (r : Result (ℕ × List ℕ)) → r ≢ panic → (r >>= parse_rfc850_rest) ≡ err
    after_wday (ok p) h = parse_rfc850_rest-err p
    after_wday err h = refl
    after_wday panic h = absurd (h refl)

    fits : 23 ≤ length s → Fits rfc850_days (length s)
    fits h = omega arith

to_int_1-ne_panic : (x : ℕ) → to_int_1 x ≢ panic
unfolding to_int_1
to_int_1-ne_panic x = ground arith

to_int_2-ne_panic : (s : List ℕ) → 2 ≤ length s → to_int_2 s ≢ panic
unfolding to_int_2
to_int_2-ne_panic s h = ground arith

to_int_4-ne_panic : (s : List ℕ) → 4 ≤ length s → to_int_4 s ≢ panic
unfolding to_int_4
to_int_4-ne_panic s h = ground arith

match_name-ne_panic : (arms : List (String × ℕ)) (s : List ℕ) → match_name arms s ≢ panic
unfolding match_name
match_name-ne_panic [] s = λ e. cc
match_name-ne_panic ((name, n) ∷ arms) s = ground (arith, match_name-ne_panic arms s)

asctime_day-ne_panic : (s : List ℕ) → 2 ≤ length s → asctime_day s ≢ panic
asctime_day-ne_panic s h =
    ground (
      arith,
      byte_at-eq s 0,
      byte_at-eq s 1,
      to_int_1-ne_panic (get_or s 1 0),
      to_int_2-ne_panic s h,
    )

slice-ne_panic :
    (s : List ℕ) (from to n : ℕ) (f : List ℕ → Result ℕ)
    → from ≤ to
    → to ≤ length s
    → n ≤ to - from
    → ((x : List ℕ) → n ≤ length x → f x ≢ panic)
    → (slice s from to >>= f) ≢ panic
slice-ne_panic s from to n f le fits enough h =
    rw (slice-eq s from to le fits) (h _ (omega (arith, length-slice s from to fits)))

date_of-ne_panic :
    (sec min hr day mon year wday : Result ℕ)
    → sec ≢ panic
    → min ≢ panic
    → hr ≢ panic
    → day ≢ panic
    → mon ≢ panic
    → year ≢ panic
    → wday ≢ panic
    → date_of sec min hr day mon year wday ≢ panic
date_of-ne_panic sec min hr day mon year wday a b c d e f g = ground arith

asctime_fields-ne_panic : (s : List ℕ) → length s ≡ 24 → asctime_fields s ≢ panic
unfolding asctime_fields
asctime_fields-ne_panic s h =
    date_of-ne_panic _ _ _ _ _ _ _ (two 17 19 (omega arith) (omega arith))
      (two 14 16 (omega arith) (omega arith)) (two 11 13 (omega arith) (omega arith))
      (slice-ne_panic s 8 10 2 asctime_day (omega arith) (omega arith) (omega arith)
        asctime_day-ne_panic)
      (name 4 8 asctime_months (omega arith) (omega arith))
      (slice-ne_panic s 20 24 4 to_int_4 (omega arith) (omega arith) (omega arith)
        to_int_4-ne_panic)
      (name 0 4 asctime_days (omega arith) (omega arith))
  where
    two : (from to : ℕ) → from + 2 ≤ to → to ≤ 24 → (slice s from to >>= to_int_2) ≢ panic
    two from to le hi =
        slice-ne_panic s from to 2 to_int_2 (omega arith) (omega arith) (omega arith)
          to_int_2-ne_panic

    name :
        (from to : ℕ) (arms : List (String × ℕ))
        → from ≤ to
        → to ≤ 24
        → (slice s from to >>= match_name arms) ≢ panic
    name from to arms le hi =
        slice-ne_panic s from to 0 (match_name arms) le (omega arith) (omega arith)
          (λ x _. match_name-ne_panic arms x)

-- No text makes the parser of asctime dates panic.
pub parse_asctime-ne_panic : (s : List ℕ) → parse_asctime s ≢ panic
unfolding parse_asctime
parse_asctime-ne_panic s = ground (
  arith,
  byte_at-eq s 10,
  byte_at-eq s 13,
  byte_at-eq s 16,
  byte_at-eq s 19,
  asctime_fields-ne_panic s,
)

from_str_after :
    (r : Result DateTime)
    → r ≢ panic
    → (r >>= λ date. lift_outcome (is_valid date) >>= λ valid. reject_if (not valid) >> ok date)
      ≡ err
from_str_after (ok d) h = rw (is_valid-false d)
from_str_after err h = refl
from_str_after panic h = absurd (h refl)

-- `from_str` returns the error on every text, and does not panic: no text parses to a date.
pub from_str-err : (s : List ℕ) → from_str s ≡ err
unfolding from_str
from_str-err s =
    let x = trim_end (trim_start s) in
    rw (parse_imf_fixdate-err x, parse_rfc850_date-err x)
      (ground (arith, from_str_after (parse_asctime x) (parse_asctime-ne_panic x)))
