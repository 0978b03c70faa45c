-- ===== src/Date/Parse/Ranges.antt =====
-- What `parse_asctime` can return.
use Prim.Native.String.{String}
use chiya.Prelude.{ℕ, ◌≤◌, ◌<◌, ◌≡◌, refl, List, [], ◌∷◌, arith}
use chiya.Date.{DateTime, Result, ok, err, panic, ◌>>=◌}
use chiya.Date.Slice.{byte_at, slice}
use chiya.Date.Digits.{to_int_1, to_int_2, to_int_4}
use chiya.Date.Parse.{
  match_name, parse_asctime, asctime_fields, asctime_day, asctime_months, asctime_days, date_of,
}
use chiya.Date.Parse.Asctime.{Fits}

to_int_2-lt : (s : List ℕ) {n : ℕ} → to_int_2 s ≡ ok n → n < 100
unfolding to_int_2
to_int_2-lt s h = ground arith

to_int_4-lt : (s : List ℕ) {n : ℕ} → to_int_4 s ≡ ok n → n < 10000
unfolding to_int_4
to_int_4-lt s h = ground arith

asctime_day-lt : (s : List ℕ) {n : ℕ} → asctime_day s ≡ ok n → n < 100
unfolding to_int_1 byte_at
asctime_day-lt s {n} h = ground (arith, to_int_2-lt s {n = n})

abbrev Bounded : ℕ → List (String × ℕ) → Type 0
Bounded hi [] = Unit {0}
Bounded hi ((name, n) ∷ arms) = (1 ≤ n) × (n ≤ hi) × Bounded hi arms

match_name-Bounded :
    (hi : ℕ) (arms : List (String × ℕ)) (s : List ℕ) {n : ℕ}
    → Bounded hi arms
    → match_name arms s ≡ ok n
    → (1 ≤ n) × (n ≤ hi)
unfolding match_name
match_name-Bounded hi [] s b h = cc
match_name-Bounded hi ((name, m) ∷ arms) s {n} b h =
    ground (arith, match_name-Bounded hi arms s {n = n} b.2)

-- A bind that returns does so on a value.
returned_by :
    {A B : Type 0} (rest : A → Result B) (first : Result A) {date : B}
    → (first >>= rest) ≡ ok date
    → (seen : A) × (first ≡ ok seen) × (rest seen ≡ ok date)
returned_by rest (ok seen) e = (seen, refl, e)
returned_by rest err e = cc
returned_by rest panic e = cc

date_of-ok :
    (sec min hr day mon year wday : Result ℕ) {d : DateTime}
    → date_of sec min hr day mon year wday ≡ ok d
    → (sec ≡ ok d.sec_c)
      × (min ≡ ok d.min_c)
      × (hr ≡ ok d.hr_c)
      × (day ≡ ok d.day_c)
      × (mon ≡ ok d.mon_c)
      × (year ≡ ok d.year_c)
      × (wday ≡ ok d.wday_c)
date_of-ok sec min hr day mon year wday h = ground arith

slice-bind :
    (P : ℕ → Type 0) (s : List ℕ) (from to : ℕ) (f : List ℕ → Result ℕ) {n : ℕ}
    → ((x : List ℕ) → f x ≡ ok n → P n)
    → (slice s from to >>= f) ≡ ok n
    → P n
slice-bind P s from to f h e = let (x, _, fx) = returned_by f (slice s from to) e in h x fx

parse_asctime-ok : (s : List ℕ) {d : DateTime} → parse_asctime s ≡ ok d → asctime_fields s ≡ ok d
unfolding parse_asctime
parse_asctime-ok s h = ground arith

-- What the parser of asctime dates returns has a month of the year, a day of the week, numbers of
-- two digits and a year of four.
pub parse_asctime-Fits : (s : List ℕ) {d : DateTime} → parse_asctime s ≡ ok d → Fits d
unfolding asctime_fields
parse_asctime-Fits s {d} h =
    let e =
      date_of-ok (slice s 17 19 >>= to_int_2) (slice s 14 16 >>= to_int_2)
        (slice s 11 13 >>= to_int_2) (slice s 8 10 >>= asctime_day)
        (slice s 4 8 >>= match_name asctime_months) (slice s 20 24 >>= to_int_4)
        (slice s 0 4 >>= match_name asctime_days) (parse_asctime-ok s h) in
    let wday = name 7 0 4 asctime_days (omega arith) e.6 in
    let mon = name 12 4 8 asctime_months (omega arith) e.4 in
    record {
      two = (
        two 17 19 e.0,
        two 14 16 e.1,
        two 11 13 e.2,
        slice-bind (λ n. n < 100) s 8 10 asctime_day (λ x. asctime_day-lt x) e.3,
      );
      year = slice-bind (λ n. n < 10000) s 20 24 to_int_4 (λ x. to_int_4-lt x) e.5;
      names = (wday.0, wday.1, mon.0, mon.1);
    }
  where
    two : (from to : ℕ) {n : ℕ} → (slice s from to >>= to_int_2) ≡ ok n → n < 100
    two from to = slice-bind (λ n. n < 100) s from to to_int_2 (λ x. to_int_2-lt x)

    name :
        (hi from to : ℕ) (arms : List (String × ℕ)) {n : ℕ}
        → Bounded hi arms
        → (slice s from to >>= match_name arms) ≡ ok n
        → (1 ≤ n) × (n ≤ hi)
    name hi from to arms b =
        slice-bind (λ n. (1 ≤ n) × (n ≤ hi)) s from to (match_name arms)
          (λ x. match_name-Bounded hi arms x b)
