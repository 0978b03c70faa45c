-- ===== src/Date/Format/Layout.antt =====
-- What `Display for DateTime` writes.
use Prim.Native.String.{String}
use chiya.Prelude.{
  ℕ, zero, suc, ◌+◌, ◌-◌, ◌/◌, ◌%◌, ◌≤◌, ◌<◌, ◌≡◌, refl, List, [], ◌∷◌, ◌++◌, get_elem?, length,
  some, none, ◌≢◌, value, panic, arith, ◌⊎◌, take, drop,
}
use chiya.Prelude.Text.{bytes_of}
use chiya.Date.{DateTime, InRange, ok}
use chiya.Date.Digits.{to_int_2, to_int_4}
use chiya.Date.Parse.Asctime.{Fits}
use chiya.Date.Format.{name_or_panic, day_arms, month_arms, writes, fmt}

-- Three bytes of a name, each below 128.
record Three : Type 0 where
  b0 : ℕ
  b1 : ℕ
  b2 : ℕ
  b0_lt : b0 < 128
  b1_lt : b1 < 128
  b2_lt : b2 < 128

-- The n-th of a list of names, from 1.
pub name_at : List String → ℕ → List ℕ
name_at names n = elim (get_elem? names (n - 1)) [ none ↦ [] | some name ↦ bytes_of name ]

abbrev pub day_names : List String
day_names = "Mon" ∷ "Tue" ∷ "Wed" ∷ "Thu" ∷ "Fri" ∷ "Sat" ∷ "Sun" ∷ []

abbrev pub month_names : List String
month_names =
    "Jan" ∷ "Feb" ∷ "Mar" ∷ "Apr" ∷ "May" ∷ "Jun" ∷ "Jul" ∷ "Aug" ∷ "Sep" ∷ "Oct" ∷ "Nov" ∷ "Dec"
    ∷ []

abbrev Named : List String → List (ℕ × String) → ℕ → Type 0
Named names arms n =
    (f : Three) × (name_or_panic arms n ≡ value (f.b0 ∷ f.b1 ∷ f.b2 ∷ []))
    × (name_at names n ≡ f.b0 ∷ f.b1 ∷ f.b2 ∷ [])

abbrev three : (a b c : ℕ) → a < 128 → b < 128 → c < 128 → Three
three a b c la lb lc = record { b0 = a; b1 = b; b2 = c; b0_lt = la; b1_lt = lb; b2_lt = lc }

abbrev pub All {ℓ} : (ℕ → Type ℓ) → List ℕ → Type ℓ
All P [] = Unit
All P (x ∷ xs) = P x × All P xs

digits2 : ℕ → List ℕ
digits2 n = (b'0' + n / 10) ∷ (b'0' + n % 10) ∷ []

digits4 : ℕ → List ℕ
digits4 n = (b'0' + n / 1000) ∷ (b'0' + n / 100 % 10) ∷ (b'0' + n / 10 % 10) ∷ (b'0' + n % 10) ∷ []

-- The layout of RFC 7231, `Wed, 01 Jan 2025 00:00:00 GMT`, where the numbers have as many digits as
-- their places, that is up to 99 and up to 9999; past that a first digit is another character.
pub imf_text : DateTime → List ℕ
unfolding digits2 digits4
imf_text d =
    name_at day_names d.wday_c
    ++ (bytes_of ", "
        ++ (digits2 d.day_c
            ++ (bytes_of " "
                ++ (name_at month_names d.mon_c
                    ++ (bytes_of " "
                        ++ (digits4 d.year_c
                            ++ (bytes_of " "
                                ++ (digits2 d.hr_c
                                    ++ (bytes_of ":"
                                        ++ (digits2 d.min_c
                                            ++ (bytes_of ":"
                                                ++ (digits2 d.sec_c ++ bytes_of " GMT"))))))))))))

abbrev AllArms : List (ℕ × String) → ℕ → Type 0
AllArms [] n = Unit {0}
AllArms ((m, name) ∷ arms) n = (n ≢ m) × AllArms arms n

day-Named : (n : ℕ) → 1 ≤ n → n ≤ 7 → Named day_names day_arms n
unfolding name_or_panic name_at
day-Named zero lo hi = absurd (omega arith)
day-Named (suc zero) lo hi =
    (three b'M' b'o' b'n' (omega arith) (omega arith) (omega arith), refl, refl)
day-Named (suc (suc zero)) lo hi =
    (three b'T' b'u' b'e' (omega arith) (omega arith) (omega arith), refl, refl)
day-Named (suc (suc (suc zero))) lo hi =
    (three b'W' b'e' b'd' (omega arith) (omega arith) (omega arith), refl, refl)
day-Named (suc (suc (suc (suc zero)))) lo hi =
    (three b'T' b'h' b'u' (omega arith) (omega arith) (omega arith), refl, refl)
day-Named (suc (suc (suc (suc (suc zero))))) lo hi =
    (three b'F' b'r' b'i' (omega arith) (omega arith) (omega arith), refl, refl)
day-Named (suc (suc (suc (suc (suc (suc zero)))))) lo hi =
    (three b'S' b'a' b't' (omega arith) (omega arith) (omega arith), refl, refl)
day-Named (suc (suc (suc (suc (suc (suc (suc zero))))))) lo hi =
    (three b'S' b'u' b'n' (omega arith) (omega arith) (omega arith), refl, refl)
day-Named (suc (suc (suc (suc (suc (suc (suc (suc n)))))))) lo hi = absurd (omega arith)

month-Named : (n : ℕ) → 1 ≤ n → n ≤ 12 → Named month_names month_arms n
unfolding name_or_panic name_at
month-Named zero lo hi = absurd (omega arith)
month-Named (suc zero) lo hi =
    (three b'J' b'a' b'n' (omega arith) (omega arith) (omega arith), refl, refl)
month-Named (suc (suc zero)) lo hi =
    (three b'F' b'e' b'b' (omega arith) (omega arith) (omega arith), refl, refl)
month-Named (suc (suc (suc zero))) lo hi =
    (three b'M' b'a' b'r' (omega arith) (omega arith) (omega arith), refl, refl)
month-Named (suc (suc (suc (suc zero)))) lo hi =
    (three b'A' b'p' b'r' (omega arith) (omega arith) (omega arith), refl, refl)
month-Named (suc (suc (suc (suc (suc zero))))) lo hi =
    (three b'M' b'a' b'y' (omega arith) (omega arith) (omega arith), refl, refl)
month-Named (suc (suc (suc (suc (suc (suc zero)))))) lo hi =
    (three b'J' b'u' b'n' (omega arith) (omega arith) (omega arith), refl, refl)
month-Named (suc (suc (suc (suc (suc (suc (suc zero))))))) lo hi =
    (three b'J' b'u' b'l' (omega arith) (omega arith) (omega arith), refl, refl)
month-Named (suc (suc (suc (suc (suc (suc (suc (suc zero)))))))) lo hi =
    (three b'A' b'u' b'g' (omega arith) (omega arith) (omega arith), refl, refl)
month-Named (suc (suc (suc (suc (suc (suc (suc (suc (suc zero))))))))) lo hi =
    (three b'S' b'e' b'p' (omega arith) (omega arith) (omega arith), refl, refl)
month-Named (suc (suc (suc (suc (suc (suc (suc (suc (suc (suc zero)))))))))) lo hi =
    (three b'O' b'c' b't' (omega arith) (omega arith) (omega arith), refl, refl)
month-Named (suc (suc (suc (suc (suc (suc (suc (suc (suc (suc (suc zero))))))))))) lo hi =
    (three b'N' b'o' b'v' (omega arith) (omega arith) (omega arith), refl, refl)
month-Named (suc (suc (suc (suc (suc (suc (suc (suc (suc (suc (suc (suc zero)))))))))))) lo hi =
    (three b'D' b'e' b'c' (omega arith) (omega arith) (omega arith), refl, refl)
month-Named (suc (suc (suc (suc (suc (suc (suc (suc (suc (suc (suc (suc (suc n))))))))))))) lo hi =
    absurd (omega arith)

fmt-imf_text :
    (d : DateTime)
    → InRange d
    → Named day_names day_arms d.wday_c
    → Named month_names month_arms d.mon_c
    → (fmt d ≡ value (imf_text d)) × (length (imf_text d) ≡ 29) × All (λ b. b < 128) (imf_text d)
unfolding fmt writes imf_text
fmt-imf_text d v (w, we, wn) (m, me, mn) = rw (we, me, wn, mn) (ground arith, refl, omega arith)

name_or_panic-panic :
    (arms : List (ℕ × String)) (n : ℕ) → AllArms arms n → name_or_panic arms n ≡ panic
unfolding name_or_panic
name_or_panic-panic [] n h = refl
name_or_panic-panic ((m, name) ∷ arms) n h = ground (arith, name_or_panic-panic arms n h.1)

-- On a day of the week and a month of the year, and fields in the ranges of their types, the text
-- is written without a panic. From 100 and from 10000 on a digit may be another ASCII character.
pub fmt-text :
    (d : DateTime)
    → InRange d
    → (1 ≤ d.wday_c) × (d.wday_c ≤ 7)
    → (1 ≤ d.mon_c) × (d.mon_c ≤ 12)
    → (fmt d ≡ value (imf_text d)) × (length (imf_text d) ≡ 29) × All (λ b. b < 128) (imf_text d)
fmt-text d v w m = fmt-imf_text d v (day-Named d.wday_c w.0 w.1) (month-Named d.mon_c m.0 m.1)

-- The bytes of a text from a place on, as many as are asked for.
abbrev pub field : ℕ → ℕ → List ℕ → List ℕ
field start len text = take len (drop start text)

-- The numbers are read back from their places in the text.
abbrev pub ReadBack : DateTime → List ℕ → Type 0
ReadBack d text =
    (to_int_2 (field 5 2 text) ≡ ok d.day_c)
    × (to_int_4 (field 12 4 text) ≡ ok d.year_c)
    × (to_int_2 (field 17 2 text) ≡ ok d.hr_c)
    × (to_int_2 (field 20 2 text) ≡ ok d.min_c)
    × (to_int_2 (field 23 2 text) ≡ ok d.sec_c)

Fits-InRange : (d : DateTime) → Fits d → InRange d
Fits-InRange d v =
    let two = v.two in
    let year = v.year in
    let names = v.names in
    record {
      sec_u8 = omega arith;
      min_u8 = omega arith;
      hr_u8 = omega arith;
      day_u8 = omega arith;
      mon_u8 = omega arith;
      year_u16 = omega arith;
      wday_u8 = omega arith;
    }

imf_text-ReadBack :
    (d : DateTime)
    → Fits d
    → Named day_names day_arms d.wday_c
    → Named month_names month_arms d.mon_c
    → ReadBack d (imf_text d)
unfolding imf_text to_int_2 to_int_4
imf_text-ReadBack d v (w, we, wn) (m, me, mn) =
    let two = v.two in
    let year = v.year in
    rw (wn, mn) (ground arith, ground arith, ground arith, ground arith, ground arith)

-- On a day of the week and a month of the year, with the other fields below 100 and the year below
-- 10000, a date is written without a panic as the text of RFC 7231: 29 bytes, all of them ASCII,
-- from whose places `to_int_2` and `to_int_4` read the day, the year, the hour, the minute and the
-- second back.
pub fmt-layout :
    (d : DateTime)
    → Fits d
    → (fmt d ≡ value (imf_text d))
      × (length (imf_text d) ≡ 29)
      × All (λ b. b < 128) (imf_text d)
      × ReadBack d (imf_text d)
fmt-layout d v =
    let (w_lo, w_hi, m_lo, m_hi) = v.names in
    let (written, long, ascii) = fmt-text d (Fits-InRange d v) (w_lo, w_hi) (m_lo, m_hi) in
    let read =
      imf_text-ReadBack d v (day-Named d.wday_c w_lo w_hi) (month-Named d.mon_c m_lo m_hi) in
    (written, long, ascii, read)

-- On any other day or month the formatter panics.
pub fmt-panic :
    (d : DateTime)
    → (d.wday_c < 1) ⊎ (7 < d.wday_c) ⊎ (d.mon_c < 1) ⊎ (12 < d.mon_c)
    → fmt d ≡ panic
unfolding fmt
fmt-panic d h =
    ground (arith, name_or_panic-panic day_arms d.wday_c, name_or_panic-panic month_arms d.mon_c)
