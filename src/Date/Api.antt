-- ===== src/Date/Api.antt =====
-- `parse_httph_date` and `fmt_httph_date` of date/src/date_time_error.rs, and the cached date of
-- date/src/lib.rs.
pub mod Cache
use chiya.Prelude.{
  ℕ, Bool, true, false, List, [], ◌∷◌, ◌++◌, ◌==◌, length, replicate, if◌then◌else◌, Outcome, value,
  panic, ◌>>=◌, ◌>>◌, assert,
}
use chiya.Date.{DateTime, Result, ok, err}
use chiya.Date.Civil.{SystemTime, from_system_time, to_system_time}
use chiya.Date.Parse.{from_str}
use chiya.Date.Format.{fmt}

-- A panic of the conversion is a panic of the caller.
abbrev pub into_system_time : Outcome SystemTime → Result SystemTime
into_system_time (value t) = ok t
into_system_time panic = Result.panic

pub parse_httph_date : List ℕ → Result SystemTime
parse_httph_date s = elim (from_str s) [
  | ok d ↦ into_system_time (to_system_time d)
  | err ↦ err
  | Result.panic ↦ Result.panic
]

pub fmt_httph_date : SystemTime → Outcome (List ℕ)
fmt_httph_date sys_t = from_system_time sys_t >>= fmt

abbrev pub date_value_length : ℕ
date_value_length = 29

-- `Date`, the cached text.
pub record Date : Type 0 where
  pub bytes : List ℕ

-- `Date::now`: zeroes until the first update.
pub now : Date
now = record { bytes = replicate date_value_length 0 }

-- `copy_from_slice` panics unless the lengths are equal.
pub write_str : Date → List ℕ → Outcome Date
write_str self s = do assert (length self.bytes == length s); value (record { bytes = s })

-- `Date::update` at the instant that `SystemTime::now()` gives.
pub update : SystemTime → Date → Outcome Date
update clock self = fmt_httph_date clock >>= write_str self

-- The updating thread: an update at each reading of the clock.
pub update_loop : List SystemTime → Date → Outcome Date
update_loop [] self = value self
update_loop (clock ∷ later) self = update clock self >>= update_loop later

-- `append_date`, on the bytes that the `BytesMut` holds.
pub append_date : Date → List ℕ → List ℕ
append_date date dst = dst ++ date.bytes
