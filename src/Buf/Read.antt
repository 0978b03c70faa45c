-- ===== src/Buf/Read.antt =====
-- The methods that `Buf` provides (bytes/src/buf/buf_impl.rs), over any implementation.
pub mod Copy
pub mod Ints
use chiya.Prelude.{
  ℕ, zero, suc, ◌+◌, ◌-◌, ◌*◌, ◌/◌, ◌%◌, ◌^◌, ◌≤◌, ◌<◌, Bool, List, [], ◌∷◌, ◌++◌, length, take,
  replicate, min, ltb, leb, if◌then◌else◌, Option, none, some, get_or,
}
use chiya.Prelude.Int.{ℤ, pos, negsuc}
use chiya.Prelude.Looping.{Run, done, panic, stuck, ◌>>=◌, ◌>>◌, assert}
use chiya.Buf.{Buf}
use chiya.Buf.Words.{Endian, big, little, from_bytes, signed}

-- `slice.get(..n)`
abbrev pub get_prefix : List ℕ → ℕ → Option (List ℕ)
get_prefix xs n = if leb n (length xs) then some (take n xs) else none

-- `sign_extend`: `8 - nbytes` does not overflow, since `get_uint` has rejected more than 8 bytes.
-- `as i64 >> shift` rounds down.
pub sign_extend : ℕ → ℕ → ℤ
sign_extend val nbytes =
    let shift = 8 - nbytes + 8 in
    elim (signed 64 (val * 2 ^ shift % 2 ^ 64)) [
      | pos n ↦ pos (n / 2 ^ shift)
      | negsuc n ↦ negsuc (n / 2 ^ shift)
    ]

-- The integers of fixed width.
pub data Width : Type 0 where
  w16 w32 w64 w128 : Width

abbrev pub size_of : Width → ℕ
size_of w16 = 2
size_of w32 = 4
size_of w64 = 8
size_of w128 = 16

module _ {S : Type 0} (b : Buf S) where
  abbrev pub has_remaining : S → Bool
  has_remaining s = ltb 0 (b.remaining s)

  -- The loop of `copy_to_slice`, with `left` bytes of `dst` to fill: the bytes that it copies.
  pub copy_loop : ℕ → S → ℕ → Run (List ℕ × S)
  copy_loop fuel s zero = done ([], s)
  copy_loop zero s (suc left) = stuck
  copy_loop (suc fuel) s (suc left) =
      let src = b.chunk s in
      let cnt = min (length src) (suc left) in
      b.advance s cnt >>= λ s'.
      copy_loop fuel s' (suc left - cnt) >>= λ r. done (take cnt src ++ r.0, r.1)

  -- The fuel: a round copies a byte at least, if no chunk is empty before the end.
  pub copy_to_slice : S → ℕ → Run (List ℕ × S)
  copy_to_slice s n = if ltb (b.remaining s) n then panic else copy_loop n s n

  -- `chunk()[0]` is a panic on an empty chunk.
  pub get_u8 : S → Run (ℕ × S)
  get_u8 s = do
    assert (leb 1 (b.remaining s))
    assert (ltb 0 (length (b.chunk s)))
    s' ← b.advance s 1
    done (get_or (b.chunk s) 0 0, s')

  pub get_i8 : S → Run (ℤ × S)
  get_i8 s = get_u8 s >>= λ r. done (signed 8 r.0, r.1)

  -- The first form of `buf_get_impl`, up to the conversion of the bytes.
  pub get_exact : ℕ → S → Run (List ℕ × S)
  get_exact size s =
      if ltb (b.remaining s) size then panic else elim (get_prefix (b.chunk s) size) [
        | some src ↦ b.advance s size >>= λ s'. done (src, s')
        | none ↦ copy_to_slice s size
      ]

  -- `get_u16` to `get_u128`, in either order; `_ne` is that of the target.
  pub get_unsigned : Width → Endian → S → Run (ℕ × S)
  get_unsigned w e s = get_exact (size_of w) s >>= λ r. done (from_bytes e r.0, r.1)

  pub get_signed : Width → Endian → S → Run (ℤ × S)
  get_signed w e s =
      get_exact (size_of w) s >>= λ r. done (signed (8 * size_of w) (from_bytes e r.0), r.1)

  -- The other two forms of `buf_get_impl`, at `u64`: `panic_does_not_fit` past 8 bytes.
  pub get_uint : Endian → ℕ → S → Run (ℕ × S)
  get_uint big nbytes s = do
    assert (leb nbytes 8)
    (bs, s') ← copy_to_slice s nbytes
    done (from_bytes big (replicate (8 - nbytes) 0 ++ bs), s')
  get_uint little nbytes s = do
    assert (leb nbytes 8)
    (bs, s') ← copy_to_slice s nbytes
    done (from_bytes little (bs ++ replicate (8 - nbytes) 0), s')

  pub get_int : Endian → ℕ → S → Run (ℤ × S)
  get_int e nbytes s = get_uint e nbytes s >>= λ r. done (sign_extend r.0 nbytes, r.1)
