-- ===== src/Date/Parse/Asctime.antt =====
-- `parse_asctime` against the layout of `asctime`.
use Prim.Native.String.{String}
use chiya.Prelude.{
  ℕ, zero, suc, ◌+◌, ◌/◌, ◌%◌, ◌≤◌, ◌<◌, ◌≡◌, refl, List, [], ◌∷◌, ◌++◌, ltb, ◌==◌, if◌then◌else◌,
  arith,
}
use chiya.Prelude.Text.{bytes_of}
use chiya.Date.{DateTime, ok}
use chiya.Date.Slice.{byte_at, slice}
use chiya.Date.Digits.{to_int_1, to_int_2, to_int_4}
use chiya.Date.Parse.{
  match_name, parse_asctime, asctime_fields, asctime_day, asctime_months, asctime_days, date_of,
}

pub two_digits : ℕ → List ℕ
two_digits n = (b'0' + n / 10) ∷ (b'0' + n % 10) ∷ []

four_digits : ℕ → List ℕ
four_digits n =
    (b'0' + n / 1000) ∷ (b'0' + n / 100 % 10) ∷ (b'0' + n / 10 % 10) ∷ (b'0' + n % 10) ∷ []

-- A day below 10 is padded by a space.
padded_day : ℕ → List ℕ
padded_day n = (if ltb n 10 then b' ' else b'0' + n / 10) ∷ (b'0' + n % 10) ∷ []

-- The name that stands for a number in a list of arms.
name_of : List (String × ℕ) → ℕ → List ℕ
name_of [] n = []
name_of ((name, m) ∷ arms) n = if m == n then bytes_of name else name_of arms n

-- `Sun Nov  6 08:49:37 1994`.
pub asctime_text : DateTime → List ℕ
asctime_text d =
    name_of asctime_days d.wday_c
    ++ (name_of asctime_months d.mon_c
        ++ (padded_day d.day_c
            ++ (b' '
                ∷ (two_digits d.hr_c
                    ++ (b':'
                        ∷ (two_digits d.min_c
                            ++ (b':' ∷ (two_digits d.sec_c ++ (b' ' ∷ four_digits d.year_c)))))))))

-- The ranges that the layout can hold.
pub record Fits (d : DateTime) : Type 0 where
  pub two : (d.sec_c < 100) × (d.min_c < 100) × (d.hr_c < 100) × (d.day_c < 100)
  pub year : d.year_c < 10000
  pub names : (1 ≤ d.wday_c) × (d.wday_c ≤ 7) × (1 ≤ d.mon_c) × (d.mon_c ≤ 12)

to_int_2-two_digits : (n : ℕ) → n < 100 → to_int_2 (two_digits n) ≡ ok n
unfolding to_int_2 two_digits
to_int_2-two_digits n h = ground arith

to_int_4-four_digits : (n : ℕ) → n < 10000 → to_int_4 (four_digits n) ≡ ok n
unfolding to_int_4 four_digits
to_int_4-four_digits n h = ground arith

asctime_day-padded_day : (n : ℕ) → n < 100 → asctime_day (padded_day n) ≡ ok n
unfolding to_int_1 to_int_2 padded_day
asctime_day-padded_day n h = ground arith

-- Four bytes, the length of each name.
record Four : Type 0 where
  b0 : ℕ
  b1 : ℕ
  b2 : ℕ
  b3 : ℕ

abbrev list_of : Four → List ℕ
list_of f = f.b0 ∷ f.b1 ∷ f.b2 ∷ f.b3 ∷ []

layout :
    (w m : Four) (day hr min sec year : ℕ)
    → parse_asctime (
        list_of w
        ++ (list_of m
            ++ (padded_day day
                ++ (b' '
                    ∷ (two_digits hr
                        ++ (b':'
                            ∷ (two_digits min
                                ++ (b':' ∷ (two_digits sec ++ (b' ' ∷ four_digits year))))))))))
      ≡ date_of
          (to_int_2 (two_digits sec))
          (to_int_2 (two_digits min))
          (to_int_2 (two_digits hr))
          (asctime_day (padded_day day))
          (match_name asctime_months (list_of m))
          (to_int_4 (four_digits year))
          (match_name asctime_days (list_of w))
unfolding parse_asctime asctime_fields slice byte_at two_digits four_digits padded_day
layout w m day hr min sec year = refl

-- A name of three letters and a space.
abbrev name_bytes : ℕ → ℕ → ℕ → Four
name_bytes a b c = record { b0 = a; b1 = b; b2 = c; b3 = b' ' }

abbrev Names : List (String × ℕ) → ℕ → Type 0
Names arms n = (f : Four) × (name_of arms n ≡ list_of f) × (match_name arms (list_of f) ≡ ok n)

day_names : (n : ℕ) → 1 ≤ n → n ≤ 7 → Names asctime_days n
unfolding name_of match_name
day_names zero lo hi = absurd (omega arith)
day_names (suc zero) lo hi = (name_bytes b'M' b'o' b'n', refl, refl)
day_names (suc (suc zero)) lo hi = (name_bytes b'T' b'u' b'e', refl, refl)
day_names (suc (suc (suc zero))) lo hi = (name_bytes b'W' b'e' b'd', refl, refl)
day_names (suc (suc (suc (suc zero)))) lo hi = (name_bytes b'T' b'h' b'u', refl, refl)
day_names (suc (suc (suc (suc (suc zero))))) lo hi = (name_bytes b'F' b'r' b'i', refl, refl)
day_names (suc (suc (suc (suc (suc (suc zero)))))) lo hi = (name_bytes b'S' b'a' b't', refl, refl)
day_names (suc (suc (suc (suc (suc (suc (suc zero))))))) lo hi =
    (name_bytes b'S' b'u' b'n', refl, refl)
day_names (suc (suc (suc (suc (suc (suc (suc (suc n)))))))) lo hi = absurd (omega arith)

month_names : (n : ℕ) → 1 ≤ n → n ≤ 12 → Names asctime_months n
unfolding name_of match_name
month_names zero lo hi = absurd (omega arith)
month_names (suc zero) lo hi = (name_bytes b'J' b'a' b'n', refl, refl)
month_names (suc (suc zero)) lo hi = (name_bytes b'F' b'e' b'b', refl, refl)
month_names (suc (suc (suc zero))) lo hi = (name_bytes b'M' b'a' b'r', refl, refl)
month_names (suc (suc (suc (suc zero)))) lo hi = (name_bytes b'A' b'p' b'r', refl, refl)
month_names (suc (suc (suc (suc (suc zero))))) lo hi = (name_bytes b'M' b'a' b'y', refl, refl)
month_names (suc (suc (suc (suc (suc (suc zero)))))) lo hi = (name_bytes b'J' b'u' b'n', refl, refl)
month_names (suc (suc (suc (suc (suc (suc (suc zero))))))) lo hi =
    (name_bytes b'J' b'u' b'l', refl, refl)
month_names (suc (suc (suc (suc (suc (suc (suc (suc zero)))))))) lo hi =
    (name_bytes b'A' b'u' b'g', refl, refl)
month_names (suc (suc (suc (suc (suc (suc (suc (suc (suc zero))))))))) lo hi =
    (name_bytes b'S' b'e' b'p', refl, refl)
month_names (suc (suc (suc (suc (suc (suc (suc (suc (suc (suc zero)))))))))) lo hi =
    (name_bytes b'O' b'c' b't', refl, refl)
month_names (suc (suc (suc (suc (suc (suc (suc (suc (suc (suc (suc zero))))))))))) lo hi =
    (name_bytes b'N' b'o' b'v', refl, refl)
month_names (suc (suc (suc (suc (suc (suc (suc (suc (suc (suc (suc (suc zero)))))))))))) lo hi =
    (name_bytes b'D' b'e' b'c', refl, refl)
month_names (suc (suc (suc (suc (suc (suc (suc (suc (suc (suc (suc (suc (suc n))))))))))))) lo hi =
    absurd (omega arith)

-- The parser of asctime dates reads back every date that the layout can hold.
pub parse_asctime-asctime_text : (d : DateTime) → Fits d → parse_asctime (asctime_text d) ≡ ok d
unfolding asctime_text
parse_asctime-asctime_text d v =
    let (w, we, wm) = day_names d.wday_c v.names.0 v.names.1 in
    let (m, me, mm) = month_names d.mon_c v.names.2 v.names.3 in
    rw (
      we,
      me,
      layout w m d.day_c d.hr_c d.min_c d.sec_c d.year_c,
      wm,
      mm,
      to_int_2-two_digits _ v.two.0,
      to_int_2-two_digits _ v.two.1,
      to_int_2-two_digits _ v.two.2,
      asctime_day-padded_day _ v.two.3,
      to_int_4-four_digits _ v.year,
    )
