-- ===== src/Date/Slice.antt =====
-- Indexing and slicing of `&[u8]` in the parsers of date/src/date_time.rs: a panic out of bounds.
use chiya.Prelude.{
  ℕ, ◌-◌, ◌≤◌, ◌<◌, ◌≡◌, ◌&&◌, List, ltb, leb, length, take, drop, get_or, if◌then◌else◌, arith,
  length-take, length-drop,
}
use chiya.Date.{Result, ok, panic}

-- `s[i]`
unfoldable pub byte_at : List ℕ → ℕ → Result ℕ
byte_at s i = if ltb i (length s) then ok (get_or s i 0) else panic

-- `&s[from..to]`
unfoldable pub slice : List ℕ → ℕ → ℕ → Result (List ℕ)
slice s from to =
    if leb from to && leb to (length s) then ok (take (to - from) (drop from s)) else panic

-- `&s[from..]`
unfoldable pub slice_from : List ℕ → ℕ → Result (List ℕ)
slice_from s from = if leb from (length s) then ok (drop from s) else panic

pub byte_at-eq : (s : List ℕ) (i : ℕ) → i < length s → byte_at s i ≡ ok (get_or s i 0)
unfolding byte_at
byte_at-eq s i h = ground arith

pub slice-eq :
    (s : List ℕ) (from to : ℕ)
    → from ≤ to
    → to ≤ length s
    → slice s from to ≡ ok (take (to - from) (drop from s))
unfolding slice
slice-eq s from to h k = ground arith

pub length-slice :
    (s : List ℕ) (from to : ℕ) → to ≤ length s → length (take (to - from) (drop from s)) ≡ to - from
length-slice s from to h = omega (arith, length-take (to - from) (drop from s), length-drop from s)
