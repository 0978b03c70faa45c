-- ===== src/Buf/Read/Ints.antt =====
-- The integers that the methods of `Buf` read.
use chiya.Prelude.{
  ℕ, zero, suc, ◌-◌, ◌*◌, ◌^◌, ◌≤◌, ◌<◌, ◌≡◌, ap, ◌∙◌, true, List, ◌++◌, length, take, drop, leb,
  arith, length-append, take-append_le, take_all, drop-append_ge,
}
use chiya.Prelude.Int.{ℤ, pos, negsuc}
use chiya.Prelude.Looping.{Run, done}
use chiya.Buf.{Buf, Lawful}
use chiya.Buf.Words.{
  Endian, big, little, to_bytes, signed, unsigned, from_bytes-to_bytes, length-to_bytes,
  from_bytes-padded_big, from_bytes-padded_little,
}
use chiya.Buf.Read.{
  Width, w16, w32, w64, w128, size_of, sign_extend, get_unsigned, get_signed, get_uint, get_int,
  copy_to_slice, get_exact,
}
use chiya.Buf.Read.Copy.{Reads, copy_to_slice-Reads, get_exact-Reads}

-- A reader in front of the bytes `bs` and of `rest` behind them.
abbrev pub Begins : {S : Type 0} {b : Buf S} → Lawful b → S → List ℕ → List ℕ → Type 0
Begins l s bs rest = l.IsValid s × (l.contents s ≡ bs ++ rest)

-- A run that returns `a` and leaves a reader in front of `rest`.
abbrev pub Returns {ℓ} :
    {S : Type 0} {b : Buf S} {A : Type ℓ} → Lawful b → A → List ℕ → Run (A × S) → Type ℓ
Returns {S} l a rest r = (t : S) × (r ≡ done (a, t)) × l.IsValid t × (l.contents t ≡ rest)

-- The range of a signed type of `bits` bits.
abbrev pub InSigned : ℕ → ℤ → Type 0
InSigned bits (pos n) = n < 2 ^ (bits - 1)
InSigned bits (negsuc n) = n < 2 ^ (bits - 1)

signed-unsigned :
    (w : Width) (z : ℤ)
    → InSigned (8 * size_of w) z
    → signed (8 * size_of w) (unsigned (8 * size_of w) z) ≡ z
unfolding signed unsigned
signed-unsigned w16 (pos n) h = ground arith
signed-unsigned w16 (negsuc n) h = ground arith
signed-unsigned w32 (pos n) h = ground arith
signed-unsigned w32 (negsuc n) h = ground arith
signed-unsigned w64 (pos n) h = ground arith
signed-unsigned w64 (negsuc n) h = ground arith
signed-unsigned w128 (pos n) h = ground arith
signed-unsigned w128 (negsuc n) h = ground arith

unsigned-lt : (w : Width) (z : ℤ) → unsigned (8 * size_of w) z < 256 ^ size_of w
unfolding unsigned
unsigned-lt w16 (pos n) = omega arith
unsigned-lt w16 (negsuc n) = omega arith
unsigned-lt w32 (pos n) = omega arith
unsigned-lt w32 (negsuc n) = omega arith
unsigned-lt w64 (pos n) = omega arith
unsigned-lt w64 (negsuc n) = omega arith
unsigned-lt w128 (pos n) = omega arith
unsigned-lt w128 (negsuc n) = omega arith

leb_of_le : (a b : ℕ) → a ≤ b → leb a b ≡ true
leb_of_le a b h = ground arith

sign_extend-pos :
    (nbytes n : ℕ) → 1 ≤ nbytes → nbytes ≤ 6 → n < 256 ^ nbytes → sign_extend n nbytes ≡ pos n
unfolding sign_extend signed
sign_extend-pos zero n lo hi h = absurd (omega arith)
sign_extend-pos (suc zero) n lo hi h = ground arith
sign_extend-pos (suc (suc zero)) n lo hi h = ground arith
sign_extend-pos (suc (suc (suc zero))) n lo hi h = ground arith
sign_extend-pos (suc (suc (suc (suc zero)))) n lo hi h = ground arith
sign_extend-pos (suc (suc (suc (suc (suc zero))))) n lo hi h = ground arith
sign_extend-pos (suc (suc (suc (suc (suc (suc zero)))))) n lo hi h = ground arith
sign_extend-pos (suc (suc (suc (suc (suc (suc (suc k))))))) n lo hi h = absurd (omega arith)

take_front : (bs rest : List ℕ) (n : ℕ) → length bs ≡ n → take n (bs ++ rest) ≡ bs
take_front bs rest n h = take-append_le n bs rest (omega arith) ∙ take_all n bs (omega arith)

drop_front : (bs rest : List ℕ) (n : ℕ) → length bs ≡ n → drop n (bs ++ rest) ≡ rest
drop_front bs rest n h =
    let none_left : n - length bs ≡ 0 = omega arith in
    drop-append_ge n bs rest (omega arith) ∙ ap (λ k. drop k rest) none_left

module _ {S : Type 0} (b : Buf S) (l : Lawful b) where
  -- A run that reads as many bytes as `bs` has reads `bs`.
  front :
      (xs bs rest : List ℕ) (n : ℕ) (r : Run (List ℕ × S))
      → xs ≡ bs ++ rest
      → length bs ≡ n
      → Reads l xs n r
      → Returns l bs rest r
  front xs bs rest n r e len (t, eq, v, c) = (
    t,
    eq ∙ ap (λ k. done (k, t)) (ap (take n) e ∙ take_front bs rest n len),
    v,
    c ∙ ap (drop n) e ∙ drop_front bs rest n len,
  )

  exact_front :
      (s : S) (bs rest : List ℕ) (size : ℕ)
      → Begins l s bs rest
      → length bs ≡ size
      → Returns l bs rest (get_exact b size s)
  exact_front s bs rest size (v, c) len =
      front (l.contents s) bs rest size _ c len
        (get_exact-Reads b l s size v (rw c (omega (arith, length-append bs rest))))

  copy_front :
      (s : S) (bs rest : List ℕ) (size : ℕ)
      → Begins l s bs rest
      → length bs ≡ size
      → Returns l bs rest (copy_to_slice b s size)
  copy_front s bs rest size (v, c) len =
      front (l.contents s) bs rest size _ c len
        (copy_to_slice-Reads b l s size v (rw c (omega (arith, length-append bs rest))))

  -- On a lawful reader in front of the bytes of an unsigned integer, in either byte order,
  -- `get_u16` to `get_u128` return it and leave the rest.
  pub get_unsigned-to_bytes :
      (w : Width) (e : Endian) (n : ℕ) (s : S) (rest : List ℕ)
      → n < 256 ^ size_of w
      → Begins l s (to_bytes e (size_of w) n) rest
      → Returns l n rest (get_unsigned b w e s)
  unfolding get_unsigned
  get_unsigned-to_bytes w e n s rest h begins =
      let (t, eq, v, c) =
        exact_front s _ rest (size_of w) begins (length-to_bytes e (size_of w) n) in
      (t, rw (eq, from_bytes-to_bytes e (size_of w) n h), v, c)

  -- A signed integer is read back from the bytes of its two's complement, in either byte order,
  -- and the rest is left.
  pub get_signed-to_bytes :
      (w : Width) (e : Endian) (z : ℤ) (s : S) (rest : List ℕ)
      → InSigned (8 * size_of w) z
      → Begins l s (to_bytes e (size_of w) (unsigned (8 * size_of w) z)) rest
      → Returns l z rest (get_signed b w e s)
  unfolding get_signed
  get_signed-to_bytes w e z s rest h begins =
      let n = unsigned (8 * size_of w) z in
      let (t, eq, v, c) =
        exact_front s _ rest (size_of w) begins (length-to_bytes e (size_of w) n) in
      (
        t,
        rw (eq, from_bytes-to_bytes e (size_of w) n (unsigned-lt w z), signed-unsigned w z h),
        v,
        c,
      )

  -- An unsigned integer of at most 8 bytes is read back by `get_uint` from as many bytes, in
  -- either byte order, and the rest is left.
  pub get_uint-to_bytes :
      (e : Endian) (nbytes n : ℕ) (s : S) (rest : List ℕ)
      → nbytes ≤ 8
      → n < 256 ^ nbytes
      → Begins l s (to_bytes e nbytes n) rest
      → Returns l n rest (get_uint b e nbytes s)
  unfolding get_uint
  get_uint-to_bytes big nbytes n s rest fits h begins =
      let (t, eq, v, c) = copy_front s _ rest nbytes begins (length-to_bytes big nbytes n) in
      (
        t,
        rw (
          leb_of_le nbytes 8 fits,
          eq,
          from_bytes-padded_big (8 - nbytes) (to_bytes big nbytes n),
          from_bytes-to_bytes big nbytes n h,
        ),
        v,
        c,
      )
  get_uint-to_bytes little nbytes n s rest fits h begins =
      let (t, eq, v, c) = copy_front s _ rest nbytes begins (length-to_bytes little nbytes n) in
      (
        t,
        rw (
          leb_of_le nbytes 8 fits,
          eq,
          from_bytes-padded_little (8 - nbytes) (to_bytes little nbytes n),
          from_bytes-to_bytes little nbytes n h,
        ),
        v,
        c,
      )

  -- From 1 to 6 bytes, `get_int` returns the unsigned value of the bytes: it is never negative.
  pub get_int-to_bytes :
      (e : Endian) (nbytes n : ℕ) (s : S) (rest : List ℕ)
      → 1 ≤ nbytes
      → nbytes ≤ 6
      → n < 256 ^ nbytes
      → Begins l s (to_bytes e nbytes n) rest
      → Returns l (pos n) rest (get_int b e nbytes s)
  unfolding get_int
  get_int-to_bytes e nbytes n s rest lo hi h begins =
      let (t, eq, v, c) = get_uint-to_bytes e nbytes n s rest (omega arith) h begins in
      (t, rw (eq, sign_extend-pos nbytes n lo hi h), v, c)
