-- ===== src/BufMut/Put.antt =====
-- The methods that `BufMut` provides (bytes/src/buf/buf_mut.rs), over any implementation.
pub mod Writes
pub mod Transfer
use chiya.Prelude.{
  ℕ, zero, suc, ◌+◌, ◌-◌, ◌*◌, Bool, List, [], ◌∷◌, length, take, drop, replicate, min, ltb, leb,
  if◌then◌else◌, not,
}
use chiya.Prelude.Int.{ℤ}
use chiya.Prelude.Looping.{Run, done, panic, stuck, ◌>>=◌, ◌>>◌, assert}
use chiya.Buf.{Buf}
use chiya.Buf.Words.{Endian, big, little, to_bytes, unsigned}
use chiya.Buf.Read.{Width, size_of, has_remaining}
use chiya.BufMut.{BufMut}

module _ {S : Type 0} (b : BufMut S) where
  abbrev pub has_remaining_mut : S → Bool
  has_remaining_mut s = ltb 0 (b.remaining_mut s)

  -- One round of the loops below: `bs` goes to the front of the chunk, which is advanced over.
  abbrev pub put_chunk : S → List ℕ → ℕ → Run S
  put_chunk s bs cnt = b.advance_mut (b.fill (b.chunk_mut s).1 bs) cnt

  -- The loop of `put_slice`.
  pub put_loop : ℕ → S → List ℕ → Run S
  put_loop fuel s [] = done s
  put_loop zero s (x ∷ src) = stuck
  put_loop (suc fuel) s (x ∷ src) =
      let cnt = min (suc (length src)) (b.chunk_mut s).0 in
      put_chunk s (take cnt (x ∷ src)) cnt >>= λ s'. put_loop fuel s' (drop cnt (x ∷ src))

  -- The fuel: a round writes a byte at least, while room is left.
  pub put_slice : S → List ℕ → Run S
  put_slice s src =
      if ltb (b.remaining_mut s) (length src) then panic else put_loop (length src) s src

  -- The loop of `put_bytes`.
  pub fill_loop : ℕ → S → ℕ → ℕ → Run S
  fill_loop fuel s val zero = done s
  fill_loop zero s val (suc cnt) = stuck
  fill_loop (suc fuel) s val (suc cnt) =
      let dst_len = min (b.chunk_mut s).0 (suc cnt) in
      put_chunk s (replicate dst_len val) dst_len >>= λ s'.
      fill_loop fuel s' val (suc cnt - dst_len)

  pub put_bytes : S → ℕ → ℕ → Run S
  put_bytes s val cnt = if ltb (b.remaining_mut s) cnt then panic else fill_loop cnt s val cnt

  pub put_u8 : S → ℕ → Run S
  put_u8 s n = put_slice s (n ∷ [])

  pub put_i8 : S → ℤ → Run S
  put_i8 s n = put_slice s (unsigned 8 n ∷ [])

  -- `put_u16` to `put_u128`, in either order; `_ne` is that of the target.
  unfoldable pub put_unsigned : Width → Endian → S → ℕ → Run S
  put_unsigned w e s n = put_slice s (to_bytes e (size_of w) n)

  unfoldable pub put_signed : Width → Endian → S → ℤ → Run S
  put_signed w e s n = put_slice s (to_bytes e (size_of w) (unsigned (8 * size_of w) n))

  -- `put_uint` and `put_uint_le`: `panic_does_not_fit` past 8 bytes.
  unfoldable pub put_uint : Endian → S → ℕ → ℕ → Run S
  put_uint big s n nbytes = do
    assert (leb nbytes 8)
    put_slice s (drop (8 - nbytes) (to_bytes big 8 n))
  put_uint little s n nbytes = do
    assert (leb nbytes 8)
    put_slice s (take nbytes (to_bytes little 8 n))

  -- `put_int` and `put_int_le`.
  pub put_int : Endian → S → ℤ → ℕ → Run S
  put_int e s n nbytes = put_uint e s (unsigned 64 n) nbytes

module _ {S T : Type 0} (b : BufMut S) (p : Buf T) where
  -- The loop of `put`, which copies chunk by chunk from `src`.
  pub transfer : ℕ → S → T → Run (S × T)
  transfer zero s src = if has_remaining p src then stuck else done (s, src)
  transfer (suc fuel) s src =
      if not (has_remaining p src)
      then done (s, src)
      else (let cnt = min (length (p.chunk src)) (b.chunk_mut s).0 in
          (do
            s' ← put_chunk b s (take cnt (p.chunk src)) cnt
            src' ← p.advance src cnt
            transfer fuel s' src'))

  pub put : S → T → Run (S × T)
  put s src =
      if ltb (b.remaining_mut s) (p.remaining src) then panic else transfer (p.remaining src) s src

-- `Writer::write` of bytes/src/buf/writer.rs: the number of bytes written, and the buffer.
pub write : {S : Type 0} → BufMut S → S → List ℕ → Run (ℕ × S)
write b s buf =
    let n = min (b.remaining_mut s) (length buf) in
    put_slice b s (take n buf) >>= λ s'. done (n, s')
