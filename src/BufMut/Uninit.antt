-- ===== src/BufMut/Uninit.antt =====
-- `UninitSlice` of bytes/src/buf/uninit_slice.rs: bytes of which some are not initialised.
mod Tests
use chiya.Prelude.{
  ℕ, zero, suc, ◌+◌, ◌-◌, ◌^◌, ◌≤◌, ◌<◌, ◌≡◌, ◌⊎◌, refl, sym, ap, ◌∙◌, Bool, true, false, ◌&&◌,
  ◌==◌, ltb, leb, if◌then◌else◌, arith, Bool-cases, inl, inr, Option, none, some, List, [], ◌∷◌,
  ◌++◌, map, length, take, drop, set, get_elem?, length-map, ◌≢◌, drop-append_ge, take-append_le,
  take_all, append-nil, append_assoc, length-append, Outcome, value, panic, ◌>>=◌, ◌>>◌, assert,
}
use chiya.Buf.{usize_max}

-- A byte that is not initialised is `none`.
abbrev pub UninitSlice : Type 0
UninitSlice = List (Option ℕ)

-- `UninitSlice::new`, over bytes that are initialised.
abbrev pub new : List ℕ → UninitSlice
new bytes = map some bytes

-- The ranges that `impl_index!` is used with.
pub data Range : Type 0 where
  range : (start end : ℕ) → Range
  range_from : ℕ → Range
  range_full : Range
  range_inclusive : (start last : ℕ) → Range
  range_to : ℕ → Range
  range_to_inclusive : ℕ → Range

-- Where a range starts and ends in a slice of a length; the end after the greatest `usize` panics.
bounds : Range → ℕ → Outcome (ℕ × ℕ)
bounds (range start end) len = value (start, end)
bounds (range_from start) len = value (start, len)
bounds range_full len = value (0, len)
bounds (range_inclusive start last) len =
    if ltb last usize_max then value (start, suc last) else panic
bounds (range_to end) len = value (0, end)
bounds (range_to_inclusive last) len = if ltb last usize_max then value (0, suc last) else panic

-- `Index` and `IndexMut`: the part of the slice.
index : UninitSlice → Range → Outcome UninitSlice
index self r = bounds r (length self) >>= λ b.
    assert (leb b.0 b.1 && leb b.1 (length self)) >> value (take (b.1 - b.0) (drop b.0 self))

-- A write to the front of `self[index..]`.
pub write_byte : UninitSlice → ℕ → ℕ → Outcome UninitSlice
write_byte self i byte =
    assert (ltb i (length self))
    >> (index self (range_from i) >>= λ part. value (take i self ++ set part 0 (some byte)))

pub copy_from_slice : UninitSlice → List ℕ → Outcome UninitSlice
copy_from_slice self slice =
    assert (length self == length slice) >> value (map some slice ++ drop (length self) self)

-- Byte after byte, from an index on.
pub write_bytes : UninitSlice → ℕ → List ℕ → Outcome UninitSlice
write_bytes self i [] = value self
write_bytes self i (byte ∷ bytes) =
    write_byte self i byte >>= λ self'. write_bytes self' (suc i) bytes

drop_all : (xs : UninitSlice) → drop (length xs) xs ≡ []
drop_all [] = refl
drop_all (x ∷ xs) = drop_all xs

write_byte-panic :
    (self : UninitSlice) (i byte : ℕ) → length self ≤ i → write_byte self i byte ≡ panic
unfolding write_byte
write_byte-panic self i byte le =
    let out : ltb i (length self) ≡ false = ground arith in rw out refl

-- The parts of a slice at an index.
drop-middle :
    (before after : UninitSlice) (i : ℕ) → i ≡ length before → drop i (before ++ after) ≡ after
drop-middle before after i e =
    let none_over : i - length before ≡ 0 = omega arith in
    drop-append_ge i before after (omega arith) ∙ ap (λ k. drop k after) none_over

take-middle :
    (before after : UninitSlice) (i : ℕ) → i ≡ length before → take i (before ++ after) ≡ before
take-middle before after i e =
    take-append_le i before after (omega arith) ∙ take_all i before (omega arith)

write_byte-middle :
    (before after : UninitSlice) (x : Option ℕ) (i byte : ℕ)
    → i ≡ length before
    → write_byte (before ++ (x ∷ after)) i byte ≡ value (before ++ (some byte ∷ after))
unfolding write_byte index bounds
write_byte-middle before after x i byte e =
    let whole = before ++ (x ∷ after) in
    let all : length whole ≡ length before + suc (length after) =
      length-append before (x ∷ after) in
    let inside : ltb i (length whole) ≡ true = ground arith in
    let low : leb i (length whole) ≡ true = ground arith in
    let high : leb (length whole) (length whole) ≡ true = ground arith in
    let part : take (length whole - i) (drop i whole) ≡ x ∷ after =
      ap (take (length whole - i)) (drop-middle before (x ∷ after) i e)
      ∙ take_all (length whole - i) (x ∷ after) (omega arith) in
    rw inside (
      rw (low, high)
        (ap (λ p. value (take i whole ++ set p 0 (some byte))) part
          ∙ ap (λ p. value (p ++ (some byte ∷ after))) (take-middle before (x ∷ after) i e)))

snoc-append :
    (before after : UninitSlice) (x : Option ℕ)
    → (before ++ (x ∷ [])) ++ after ≡ before ++ (x ∷ after)
snoc-append before after x = append_assoc before (x ∷ []) after

-- The bytes before the index are written; as many others are left as there are bytes to write.
write_bytes-filled :
    (bytes : List ℕ) (before after : UninitSlice) (i : ℕ)
    → i ≡ length before
    → length after ≡ length bytes
    → write_bytes (before ++ after) i bytes ≡ value (before ++ map some bytes)
unfolding write_bytes
write_bytes-filled [] before [] i e same = refl
write_bytes-filled [] before (x ∷ after) i e same = absurd (omega arith)
write_bytes-filled (byte ∷ bytes) before [] i e same = absurd (omega arith)
write_bytes-filled (byte ∷ bytes) before (x ∷ after) i e same =
    let longer : suc i ≡ length (before ++ (some byte ∷ [])) =
      omega (arith, length-append before (some byte ∷ [])) in
    rw (write_byte-middle before after x i byte e, ← snoc-append before after (some byte))
      (write_bytes-filled bytes (before ++ (some byte ∷ [])) after (suc i) longer (omega arith)
        ∙ ap value (snoc-append before (map some bytes) (some byte)))

-- Where there are as many bytes as the slice has, `copy_from_slice` and a `write_byte` of each of
-- them at its index leave the same, each byte initialised; where there are not, `copy_from_slice`
-- panics, and so does a `write_byte` at the index after the last of the slice.
pub copy_from_slice-cases :
    (self : UninitSlice) (slice : List ℕ)
    → ((length self ≡ length slice)
        × (copy_from_slice self slice ≡ value (new slice))
        × (write_bytes self 0 slice ≡ value (new slice)))
      ⊎ ((length self ≢ length slice)
          × (copy_from_slice self slice ≡ panic)
          × (write_byte self (length self) 0 ≡ panic))
unfolding copy_from_slice
copy_from_slice-cases self slice = elim (Bool-cases (length self == length slice)) [
  | inl yes_same ↦
      let same : length self ≡ length slice = ground arith in
      let over : drop (length self) self ≡ [] = drop_all self in
      inl (
        same,
        rw yes_same
            (ap (λ k. value (map some slice ++ k)) over ∙ ap value (append-nil (map some slice))),
        write_bytes-filled slice [] self 0 refl same,
      )
  | inr no_same ↦
      inr
        ((λ e. ground arith), rw no_same refl, write_byte-panic self (length self) 0 (omega arith))
]
