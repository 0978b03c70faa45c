-- ===== src/Date/Digits.antt =====
-- `to_int_1`, `to_int_2` and `to_int_4` of date/src/date_time.rs.
use chiya.Prelude.{ℕ, ◌+◌, ◌-◌, ◌*◌, ◌%◌, ◌&&◌, List, ltb, if◌then◌else◌}
use chiya.Date.{Result, ok, err, ◌>>=◌}
use chiya.Date.Slice.{byte_at}

-- `x.wrapping_sub(b'0')` on `u8`.
abbrev pub digit : ℕ → ℕ
digit x = (x + 256 - b'0') % 256

unfoldable pub to_int_1 : ℕ → Result ℕ
to_int_1 x = if ltb (digit x) 10 then ok (digit x) else err

unfoldable pub to_int_2 : List ℕ → Result ℕ
unfolding byte_at
to_int_2 s = do
  high ← byte_at s 0
  low ← byte_at s 1
  if ltb (digit high) 10 && ltb (digit low) 10 then ok (digit high * 10 + digit low) else err

unfoldable pub to_int_4 : List ℕ → Result ℕ
unfolding byte_at
to_int_4 s = do
  a ← byte_at s 0
  b ← byte_at s 1
  c ← byte_at s 2
  d ← byte_at s 3
  if ltb (digit a) 10 && ltb (digit b) 10 && ltb (digit c) 10 && ltb (digit d) 10
      then ok (digit a * 1000 + digit b * 100 + digit c * 10 + digit d)
      else err
