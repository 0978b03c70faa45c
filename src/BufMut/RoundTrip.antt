-- ===== src/BufMut/RoundTrip.antt =====
-- What the integer methods of `BufMut` write is what those of `Buf` read.
use chiya.Prelude.{
  ℕ, zero, suc, ◌-◌, ◌*◌, ◌/◌, ◌%◌, ◌≤◌, ◌<◌, ◌^◌, ◌≡◌, refl, ap, sym, ◌∙◌, true, List, [], ◌∷◌,
  ◌++◌, length, take, drop, leb, arith, append-nil,
}
use chiya.Prelude.Int.{ℤ}
use chiya.Prelude.Looping.{done}
use chiya.Buf.{usize_max}
use chiya.Buf.Words.{Endian, big, little, to_bytes, to_le_bytes, unsigned, length-to_bytes}
use chiya.Buf.Read.{Width, w16, w32, w64, w128, size_of, get_unsigned, get_signed, get_uint}
use chiya.Buf.Read.Ints.{InSigned, get_unsigned-to_bytes, get_signed-to_bytes, get_uint-to_bytes}
use chiya.Buf.Slice.{slice_buf, slice_Lawful}
use chiya.BufMut.{BufMut, LawfulMut}
use chiya.BufMut.Put.{put_slice, put_unsigned, put_signed, put_uint}
use chiya.BufMut.Put.Writes.{put_slice-Writes}

size_of-le : (w : Width) → size_of w ≤ 16
size_of-le w16 = omega arith
size_of-le w32 = omega arith
size_of-le w64 = omega arith
size_of-le w128 = omega arith

-- The low bytes of a 64-bit integer.
put_bytes_of : Endian → ℕ → ℕ → List ℕ
put_bytes_of big n nbytes = drop (8 - nbytes) (to_bytes big 8 n)
put_bytes_of little n nbytes = take nbytes (to_bytes little 8 n)

take-to_le_bytes : (k m n : ℕ) → k ≤ m → take k (to_le_bytes m n) ≡ to_le_bytes k n
unfolding to_le_bytes
take-to_le_bytes zero m n h = refl
take-to_le_bytes (suc k) zero n h = absurd (omega arith)
take-to_le_bytes (suc k) (suc m) n h =
    ap (λ bs. n % 256 ∷ bs) (take-to_le_bytes k m (n / 256) (omega arith))

low_bytes : (e : Endian) (n nbytes : ℕ) → nbytes ≤ 8 → put_bytes_of e n nbytes ≡ to_bytes e nbytes n
unfolding put_bytes_of to_bytes to_le_bytes
low_bytes big n zero h = refl
low_bytes big n (suc zero) h = refl
low_bytes big n (suc (suc zero)) h = refl
low_bytes big n (suc (suc (suc zero))) h = refl
low_bytes big n (suc (suc (suc (suc zero)))) h = refl
low_bytes big n (suc (suc (suc (suc (suc zero))))) h = refl
low_bytes big n (suc (suc (suc (suc (suc (suc zero)))))) h = refl
low_bytes big n (suc (suc (suc (suc (suc (suc (suc zero))))))) h = refl
low_bytes big n (suc (suc (suc (suc (suc (suc (suc (suc zero)))))))) h = refl
low_bytes big n (suc (suc (suc (suc (suc (suc (suc (suc (suc k))))))))) h = absurd (omega arith)
low_bytes little n nbytes h = take-to_le_bytes nbytes 8 n h

module _ {S : Type 0} (b : BufMut S) (m : LawfulMut b) where
  -- The bytes written from `s` to `t`.
  abbrev pub added : S → S → List ℕ
  added s t = drop (length (m.written s)) (m.written t)

  added-append : (s t : S) (bs : List ℕ) → m.written t ≡ m.written s ++ bs → added s t ≡ bs ++ []
  added-append s t bs e =
      ap (drop (length (m.written s))) e ∙ front (m.written s) ∙ sym (append-nil bs)
    where
      front : (xs : List ℕ) → drop (length xs) (xs ++ bs) ≡ bs
      front [] = refl
      front (x ∷ xs) = front xs

  -- On a valid state of a lawful writer with room for it, an unsigned integer of the width is
  -- written, in either byte order, and read back from the bytes added, of which it leaves none.
  pub put_unsigned-get_unsigned :
      (w : Width) (e : Endian) (s : S) (n : ℕ)
      → m.IsValid s
      → n < 256 ^ size_of w
      → size_of w ≤ b.remaining_mut s
      → (t : S) × (put_unsigned b w e s n ≡ done t)
        × m.IsValid t
        × (get_unsigned slice_buf w e (added s t) ≡ done (n, []))
  unfolding put_unsigned
  put_unsigned-get_unsigned w e s n v h room =
      let len = length-to_bytes e (size_of w) n in
      let small = size_of-le w in
      let (t, r, vt, wt, _) = put_slice-Writes b m s (to_bytes e (size_of w) n) v (omega arith) in
      let same = added-append s t (to_bytes e (size_of w) n) wt in
      let short : length (added s t) ≤ usize_max =
        omega (arith, ap length (same ∙ append-nil (to_bytes e (size_of w) n))) in
      let (u, read, _, nil) =
        get_unsigned-to_bytes slice_buf slice_Lawful w e n (added s t) [] h (short, same) in
      (t, r, vt, read ∙ ap (λ k. done (n, k)) nil)

  -- On a valid state of a lawful writer with room for it, a signed integer of the width is
  -- written, in either byte order, and read back from the bytes added, of which it leaves none.
  pub put_signed-get_signed :
      (w : Width) (e : Endian) (s : S) (z : ℤ)
      → m.IsValid s
      → InSigned (8 * size_of w) z
      → size_of w ≤ b.remaining_mut s
      → (t : S) × (put_signed b w e s z ≡ done t)
        × m.IsValid t
        × (get_signed slice_buf w e (added s t) ≡ done (z, []))
  unfolding put_signed
  put_signed-get_signed w e s z v h room =
      let n = unsigned (8 * size_of w) z in
      let len = length-to_bytes e (size_of w) n in
      let small = size_of-le w in
      let (t, r, vt, wt, _) = put_slice-Writes b m s (to_bytes e (size_of w) n) v (omega arith) in
      let same = added-append s t (to_bytes e (size_of w) n) wt in
      let short : length (added s t) ≤ usize_max =
        omega (arith, ap length (same ∙ append-nil (to_bytes e (size_of w) n))) in
      let (u, read, _, nil) =
        get_signed-to_bytes slice_buf slice_Lawful w e z (added s t) [] h (short, same) in
      (t, r, vt, read ∙ ap (λ k. done (z, k)) nil)

  put_uint_bytes :
      (e : Endian) (s : S) (n nbytes : ℕ)
      → nbytes ≤ 8
      → put_uint b e s n nbytes ≡ put_slice b s (to_bytes e nbytes n)
  unfolding put_uint put_bytes_of
  put_uint_bytes big s n nbytes h =
      let fits : leb nbytes 8 ≡ true = ground arith in
      rw fits (ap (put_slice b s) (low_bytes big n nbytes h))
  put_uint_bytes little s n nbytes h =
      let fits : leb nbytes 8 ≡ true = ground arith in
      rw fits (ap (put_slice b s) (low_bytes little n nbytes h))

  -- On a valid state of a lawful writer with room for `nbytes`, 8 at most, an integer that fits in
  -- them is written, in either byte order, and read back from the bytes added, of which it leaves
  -- none.
  pub put_uint-get_uint :
      (e : Endian) (s : S) (n nbytes : ℕ)
      → m.IsValid s
      → nbytes ≤ 8
      → n < 256 ^ nbytes
      → nbytes ≤ b.remaining_mut s
      → (t : S) × (put_uint b e s n nbytes ≡ done t)
        × m.IsValid t
        × (get_uint slice_buf e nbytes (added s t) ≡ done (n, []))
  put_uint-get_uint e s n nbytes v fits h room =
      let len = length-to_bytes e nbytes n in
      let (t, r, vt, wt, _) = put_slice-Writes b m s (to_bytes e nbytes n) v (omega arith) in
      let same = added-append s t (to_bytes e nbytes n) wt in
      let short : length (added s t) ≤ usize_max =
        omega (arith, ap length (same ∙ append-nil (to_bytes e nbytes n))) in
      let (u, read, _, nil) =
        get_uint-to_bytes slice_buf slice_Lawful e nbytes n (added s t) [] fits h (short, same) in
      (t, put_uint_bytes e s n nbytes fits ∙ r, vt, read ∙ ap (λ k. done (n, k)) nil)
