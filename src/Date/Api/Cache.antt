-- ===== src/Date/Api/Cache.antt =====
-- `fmt_httph_date`, and the cached date under the updates of its thread.
use chiya.Prelude.{
  ℕ, ◌+◌, ◌<◌, ◌≡◌, refl, List, [], ◌∷◌, ◌++◌, length, value, arith, lt→ltb, length-append,
}
use chiya.Date.{err}
use chiya.Date.Civil.{SystemTime, since_epoch, from_system_time, date_of_seconds, year_10000}
use chiya.Date.Civil.RoundTrip.{date_of_seconds-ranges}
use chiya.Date.Parse.Never.{from_str-err}
use chiya.Date.Format.Layout.{imf_text, fmt-text}
use chiya.Date.Api.{
  parse_httph_date, fmt_httph_date, Date, now, write_str, update, update_loop, append_date,
}

-- No header parses: the error is returned for every text.
pub parse_httph_date-err : (s : List ℕ) → parse_httph_date s ≡ err
unfolding parse_httph_date
parse_httph_date-err s = rw (from_str-err s, parse_httph_date)

-- An instant from the epoch on and before the year 10000 is written, without a panic, as 29 bytes
-- in the layout of RFC 7231.
pub fmt_httph_date-imf_text :
    (sec nanos : ℕ)
    → sec < year_10000
    → (fmt_httph_date (since_epoch sec nanos) ≡ value (imf_text (date_of_seconds sec)))
      × (length (imf_text (date_of_seconds sec)) ≡ 29)
unfolding fmt_httph_date from_system_time
fmt_httph_date-imf_text sec nanos h =
    let (range, wday, mon) = date_of_seconds-ranges sec h in
    let l = fmt-text (date_of_seconds sec) range wday mon in (rw (lt→ltb _ _ h) l.0, l.1)

-- Instants from the epoch on and before the year 10000.
abbrev pub InYears : List SystemTime → Type 0
InYears [] = Unit {0}
InYears (t ∷ ts) =
    (sec : ℕ) × (nanos : ℕ) × (t ≡ since_epoch sec nanos) × (sec < year_10000) × InYears ts

update-eq :
    (sec nanos : ℕ) (date : Date)
    → sec < year_10000
    → length date.bytes ≡ 29
    → update (since_epoch sec nanos) date
      ≡ value (record { bytes = imf_text (date_of_seconds sec) })
unfolding update write_str
update-eq sec nanos date h e =
    let (written, l) = fmt_httph_date-imf_text sec nanos h in rw written (ground arith)

update_loop-latest :
    (clocks : List SystemTime) (sec nanos : ℕ) (date : Date)
    → InYears clocks
    → sec < year_10000
    → length date.bytes ≡ 29
    → update_loop (clocks ++ (since_epoch sec nanos ∷ [])) date
      ≡ value (record { bytes = imf_text (date_of_seconds sec) })
unfolding update_loop
update_loop-latest [] sec nanos date hs h e = rw (update-eq sec nanos date h e)
update_loop-latest (t ∷ ts) sec nanos date (s, n, te, lt, hs) h e =
    rw (te, update-eq s n date lt e)
      (update_loop-latest ts sec nanos _ hs h (fmt_httph_date-imf_text s n lt).1)

-- Whatever instants from the epoch on and before the year 10000 the updating thread has seen, at
-- least one, it has not panicked, and what is appended to a message is the text of the last of
-- them, 29 bytes.
pub append_date-latest :
    (clocks : List SystemTime) (sec nanos : ℕ) (dst : List ℕ)
    → InYears clocks
    → sec < year_10000
    → (date : Date) × (update_loop (clocks ++ (since_epoch sec nanos ∷ [])) now ≡ value date)
      × (append_date date dst ≡ dst ++ imf_text (date_of_seconds sec))
      × (length (append_date date dst) ≡ length dst + 29)
unfolding append_date now
append_date-latest clocks sec nanos dst hs h =
    let text = imf_text (date_of_seconds sec) in
    (
      record { bytes = text },
      update_loop-latest clocks sec nanos now hs h refl,
      refl,
      omega (arith, length-append dst text, (fmt_httph_date-imf_text sec nanos h).1),
    )
