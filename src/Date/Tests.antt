-- ===== src/Date/Tests.antt =====
-- The theorems on the date crate at concrete dates and texts.
use chiya.Prelude.{
  ℕ, ◌+◌, ◌/◌, ◌%◌, ◌≤◌, ◌<◌, ◌≡◌, ◌⊎◌, refl, arith, List, [], ◌∷◌, ◌++◌, length, value,
}
use chiya.Prelude.Text.{bytes_of}
use chiya.Date.{DateTime, InRange, err}
use chiya.Date.Civil.{since_epoch, from_system_time, to_system_time, date_of_seconds, cmp}
use chiya.Date.Civil.RoundTrip.{mend_year, from_system_time_fields}
use chiya.Date.Civil.Order.{IsCalendar, days_in_month, calendar_compare, cmp-calendar_compare}
use chiya.Date.Parse.{from_str}
use chiya.Date.Parse.Never.{from_str-err}
use chiya.Date.Parse.Asctime.{Fits}
use chiya.Date.Format.{fmt}
use chiya.Date.Format.Layout.{All, imf_text, ReadBack, fmt-layout}
use chiya.Date.Api.{Date, now, update_loop, append_date}
use chiya.Date.Api.Cache.{InYears, append_date-latest}

-- Sunday, 6 November 1994, 08:49:37.
abbrev sunday : DateTime
sunday = record {
  sec_c = 37;
  min_c = 49;
  hr_c = 8;
  day_c = 6;
  mon_c = 11;
  year_c = 1994;
  wday_c = 7;
}

-- The same day a year later, a Monday.
abbrev monday : DateTime
monday = record sunday { year_c = 1995; wday_c = 1 }

abbrev nameless : DateTime
nameless = record sunday { wday_c = 8 }

abbrev imf : List ℕ
imf = bytes_of "Sun, 06 Nov 1994 08:49:37 GMT"

abbrev rfc850 : List ℕ
rfc850 = bytes_of "Sunday, 06-Nov-94 08:49:37 GMT"

abbrev asctime : List ℕ
asctime = bytes_of "Sun Nov  6 08:49:37 1994"

abbrev one_byte : List ℕ
one_byte = 1 ∷ []

sunday-IsCalendar : IsCalendar sunday
unfolding days_in_month
sunday-IsCalendar = record {
  year_in = omega arith;
  month_in = (omega arith, omega arith);
  day_in = (omega arith, omega arith);
  time_in = (omega arith, omega arith, omega arith);
}

monday-IsCalendar : IsCalendar monday
unfolding days_in_month
monday-IsCalendar = record {
  year_in = omega arith;
  month_in = (omega arith, omega arith);
  day_in = (omega arith, omega arith);
  time_in = (omega arith, omega arith, omega arith);
}

sunday-InRange : InRange sunday
sunday-InRange = record {
  sec_u8 = omega arith;
  min_u8 = omega arith;
  hr_u8 = omega arith;
  day_u8 = omega arith;
  mon_u8 = omega arith;
  year_u16 = omega arith;
  wday_u8 = omega arith;
}

sunday-Fits : Fits sunday
sunday-Fits = record {
  two = (omega arith, omega arith, omega arith, omega arith);
  year = omega arith;
  names = (omega arith, omega arith, omega arith, omega arith);
}

from_str-err_example : from_str imf ≡ err
from_str-err_example = from_str-err imf

from_system_time_fields_example :
    (d : DateTime) × (from_system_time (since_epoch 784111777 5) ≡ value d)
    × (to_system_time (mend_year 784111777 d) ≡ value (since_epoch 784111777 0))
    × (d.wday_c ≡ (784111777 / 86400 + 3) % 7 + 1)
    × ((784111777 / 86400 < 11017) × (d.year_c ≡ (mend_year 784111777 d).year_c + 800)
        ⊎ (11017 ≤ 784111777 / 86400) × (d.year_c ≤ 20))
from_system_time_fields_example = from_system_time_fields 784111777 5 (omega arith)

cmp-calendar_compare_example : cmp sunday monday ≡ value (calendar_compare sunday monday)
cmp-calendar_compare_example = cmp-calendar_compare sunday-IsCalendar monday-IsCalendar

fmt-layout_example :
    (fmt sunday ≡ value (imf_text sunday))
    × (length (imf_text sunday) ≡ 29)
    × All (λ b. b < 128) (imf_text sunday)
    × ReadBack sunday (imf_text sunday)
fmt-layout_example = fmt-layout sunday sunday-Fits

one_clock-InYears : InYears (since_epoch 784111776 0 ∷ [])
one_clock-InYears = (784111776, 0, refl, omega arith, tt)

append_date-latest_example :
    (date : Date) × (update_loop
        ((since_epoch 784111776 0 ∷ []) ++ (since_epoch 784111777 5 ∷ []))
        now
      ≡ value date)
    × (append_date date one_byte ≡ one_byte ++ imf_text (date_of_seconds 784111777))
    × (length (append_date date one_byte) ≡ 30)
append_date-latest_example =
    append_date-latest (since_epoch 784111776 0 ∷ []) 784111777 5 one_byte one_clock-InYears
      (omega arith)
