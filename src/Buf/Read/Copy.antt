-- ===== src/Buf/Read/Copy.antt =====
-- `copy_to_slice` and the reads of a given size, on a lawful implementation.
use chiya.Prelude.{
  ℕ, zero, suc, ◌+◌, ◌-◌, ◌≤◌, ◌<◌, ◌≡◌, refl, ap, sym, ◌∙◌, false, List, ◌++◌, length, take, drop,
  min, ltb, leb, arith, take-split, drop-drop, take-append_le, length-append, length-drop,
  Bool-cases, inl, inr,
}
use chiya.Prelude.Looping.{Run, done, panic, ◌>>=◌}
use chiya.Buf.{Buf, Lawful}
use chiya.Buf.Read.{copy_loop, copy_to_slice, get_exact}

-- A run that returns the first `n` bytes of `xs` and leaves a reader of the others.
abbrev pub Reads : {S : Type 0} {b : Buf S} (l : Lawful b) → List ℕ → ℕ → Run (List ℕ × S) → Type 0
Reads {S} l xs n r = (t : S) × (r ≡ done (take n xs, t)) × l.IsValid t × (l.contents t ≡ drop n xs)

take_join :
    (c n : ℕ) (xs ys : List ℕ) → c ≤ n → ys ≡ drop c xs → take c xs ++ take (n - c) ys ≡ take n xs
take_join c n xs ys h e = rw e (sym (take-split c n xs h))

drop_join : (c n : ℕ) (xs ys : List ℕ) → c ≤ n → ys ≡ drop c xs → drop (n - c) ys ≡ drop n xs
drop_join c n xs ys h e =
    let sum : c + (n - c) ≡ n = omega arith in
    rw e (drop-drop c (n - c) xs ∙ ap (λ k. drop k xs) sum)

module _ {S : Type 0} (b : Buf S) (l : Lawful b) where
  open l use {IsValid, contents}

  chunk-take :
      (s : S) (c : ℕ)
      → IsValid s
      → c ≤ length (b.chunk s)
      → take c (b.chunk s) ≡ take c (contents s)
  chunk-take s c v h =
      rw (l.chunk-append s v) (sym (take-append_le c (b.chunk s) (l.chunk_rest s) h))

  length-chunk : (s : S) → IsValid s → length (b.chunk s) ≤ length (contents s)
  length-chunk s v =
      rw (l.chunk-append s v) (omega (arith, length-append (b.chunk s) (l.chunk_rest s)))

  -- A round, with the rounds after it.
  copy_round :
      (fuel : ℕ) (s t : S) (n c : ℕ)
      → IsValid s
      → c ≤ n
      → c ≤ length (b.chunk s)
      → contents t ≡ drop c (contents s)
      → Reads l (contents t) (n - c) (copy_loop b fuel t (n - c))
      → Reads l
          (contents s)
          n
          (copy_loop b fuel t (n - c) >>= λ r. done (take c (b.chunk s) ++ r.0, r.1))
  copy_round fuel s t n c v le fits ct (u, e, vu, cu) = (
    u,
    rw (e, chunk-take s c v fits)
        (ap (λ k. done (k, u)) (take_join c n (contents s) (contents t) le ct)),
    vu,
    cu ∙ drop_join c n (contents s) (contents t) le ct,
  )

  copy_loop-Reads :
      (fuel : ℕ) (s : S) (n : ℕ)
      → IsValid s
      → n ≤ fuel
      → n ≤ length (contents s)
      → Reads l (contents s) n (copy_loop b fuel s n)
  unfolding copy_loop
  copy_loop-Reads fuel s zero v hf h = (s, refl, v, refl)
  copy_loop-Reads zero s (suc n) v hf h = absurd (omega arith)
  copy_loop-Reads (suc fuel) s (suc n) v hf h =
      let c = min (length (b.chunk s)) (suc n) in
      let (t, adv, vt, ct) = l.advance-done s c v (omega (arith, length-chunk s v)) in
      rw adv (
        copy_round fuel s t (suc n) c v (omega arith) (omega arith) ct (
          copy_loop-Reads fuel t (suc n - c) vt (omega (arith, l.chunk-pos s v))
            (rw ct (omega (arith, length-drop c (contents s))))))

  -- On a valid state of a lawful reader, `copy_to_slice` of at most as many bytes as are left ends
  -- with the next bytes, and leaves a valid reader of the others.
  pub copy_to_slice-Reads :
      (s : S) (n : ℕ)
      → IsValid s
      → n ≤ length (contents s)
      → Reads l (contents s) n (copy_to_slice b s n)
  unfolding copy_to_slice
  copy_to_slice-Reads s n v h =
      let enough : ltb (b.remaining s) n ≡ false = ground (arith, l.remaining-eq s v) in
      rw enough (copy_loop-Reads n s n v (omega arith) h)

  -- On a valid state of a lawful reader, `copy_to_slice` of more bytes than are left panics.
  pub copy_to_slice-panic :
      (s : S) (n : ℕ) → IsValid s → length (contents s) < n → copy_to_slice b s n ≡ panic
  unfolding copy_to_slice
  copy_to_slice-panic s n v h = ground (arith, l.remaining-eq s v)

  pub get_exact-Reads :
      (s : S) (size : ℕ)
      → IsValid s
      → size ≤ length (contents s)
      → Reads l (contents s) size (get_exact b size s)
  unfolding get_exact
  get_exact-Reads s size v h =
      let enough : ltb (b.remaining s) size ≡ false = ground (arith, l.remaining-eq s v) in
      rw enough (elim (Bool-cases (leb size (length (b.chunk s)))) [
        | inl one ↦ rw one (in_one_chunk (ground arith))
        | inr more ↦ rw more (copy_to_slice-Reads s size v h)
      ])
    where
      in_one_chunk :
          size ≤ length (b.chunk s)
          → Reads l (contents s) size (b.advance s size >>= λ s'. done (take size (b.chunk s), s'))
      in_one_chunk fits =
          let (t, adv, vt, ct) = l.advance-done s size v h in
          (t, rw (adv, chunk-take s size v fits), vt, ct)

  pub get_exact-panic :
      (s : S) (size : ℕ) → IsValid s → length (contents s) < size → get_exact b size s ≡ panic
  unfolding get_exact
  get_exact-panic s size v h = ground (arith, l.remaining-eq s v)
