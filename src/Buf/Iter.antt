-- ===== src/Buf/Iter.antt =====
-- `IntoIter` of bytes/src/buf/iter.rs, and `Reader` of bytes/src/buf/reader.rs.
use chiya.Prelude.{
  ℕ, zero, suc, ◌≤◌, ◌<◌, ◌≡◌, ap, sym, ◌∙◌, List, [], ◌∷◌, ◌++◌, length, take, drop, min, get_or,
  Option, none, some, not, ltb, if◌then◌else◌, arith, length-drop, nil_of_length, Bool-cases, inl,
  inr, true, take_all, dec_lt,
}
use chiya.Prelude.Looping.{Run, done, stuck, ◌>>=◌, ◌>>◌, assert}
use chiya.Buf.{Buf, Lawful}
use chiya.Buf.Read.{has_remaining, copy_to_slice}
use chiya.Buf.Read.Copy.{copy_to_slice-Reads}

module _ {S : Type 0} (b : Buf S) where
  -- `IntoIter::next`; `chunk()[0]` is a panic on an empty chunk.
  pub next : S → Run (Option ℕ × S)
  next inner = if not (has_remaining b inner) then done (none, inner) else (do
    assert (ltb 0 (length (b.chunk inner)))
    inner' ← b.advance inner 1
    done (some (get_or (b.chunk inner) 0 0), inner'))

  -- The lower bound of `size_hint`, which is the upper one too.
  abbrev pub size_hint : S → ℕ
  size_hint inner = b.remaining inner

  -- A `for` loop over the iterator: the items up to the first `None`.
  pub collect : ℕ → S → Run (List ℕ)
  collect zero inner = stuck
  collect (suc fuel) inner = next inner >>= λ r. elim r.0 [
    | none ↦ done []
    | some item ↦ collect fuel r.1 >>= λ items. done (item ∷ items)
  ]

  -- `Reader::read` into a buffer of `n` bytes: the number of bytes read, and those bytes.
  pub read : S → ℕ → Run (ℕ × List ℕ × S)
  read buf n =
      let len = min (b.remaining buf) n in copy_to_slice b buf len >>= λ r. done (len, r.0, r.1)

module _ {S : Type 0} (b : Buf S) (l : Lawful b) where
  -- The items from `s` on, where `t` is what `advance` leaves after the first one.
  collect_item :
      (fuel : ℕ) (s t : S) (chunk hidden : List ℕ)
      → collect b fuel t ≡ done (l.contents t)
      → 0 < length chunk
      → l.contents s ≡ chunk ++ hidden
      → l.contents t ≡ drop 1 (l.contents s)
      → (collect b fuel t >>= λ items. done (get_or chunk 0 0 ∷ items)) ≡ done (l.contents s)
  collect_item fuel s t [] hidden rest pos e d = absurd (omega arith)
  collect_item fuel s t (x ∷ xs) hidden rest pos e d =
      rw rest (ap (λ k. done (x ∷ k)) (d ∙ ap (drop 1) e) ∙ sym (ap (λ k. done k) e))

  -- From a valid state of a lawful reader, the iterator ends within one call more than `size_hint`
  -- says, having given the bytes in order.
  pub collect-contents :
      (fuel : ℕ) (s : S)
      → l.IsValid s
      → size_hint b s < fuel
      → collect b fuel s ≡ done (l.contents s)
  unfolding collect next
  collect-contents zero s v h = absurd (omega arith)
  collect-contents (suc fuel) s v h =
      let len = l.remaining-eq s v in
      elim (Bool-cases (has_remaining b s)) [
        | inl more ↦
            let pos = l.chunk-pos s v (ground (arith, len)) in
            let (t, adv, vt, ct) = l.advance-done s 1 v (ground (arith, len)) in
            let shorter = length-drop 1 (l.contents s) in
            let len_t = l.remaining-eq t vt in
            let len_t2 : length (l.contents t) ≡ length (drop 1 (l.contents s)) = ap length ct in
            let first : ltb 0 (length (b.chunk s)) ≡ true = ground arith in
            rw (more, first, adv)
              (collect_item fuel s t (b.chunk s) (l.chunk_rest s)
                (collect-contents fuel t vt (ground (arith, len, len_t, len_t2, shorter))) pos
                (l.chunk-append s v) ct)
        | inr over ↦
            let nil : l.contents s ≡ [] = nil_of_length _ (ground (arith, len)) in
            rw over (ap (λ k. done k) (sym nil))
      ]

  read_at :
      (s : S) (n len : ℕ) (bs : List ℕ) (t : S)
      → min (b.remaining s) n ≡ len
      → copy_to_slice b s len ≡ done (bs, t)
      → read b s n ≡ done (len, bs, t)
  unfolding read
  read_at s n len bs t e call = rw (e, call)

  -- From a valid state of a lawful reader, `read` fills as much as is asked for or left, whichever
  -- is less, and leaves the other bytes.
  pub read-take :
      (s : S) (n : ℕ)
      → l.IsValid s
      → (t : S) × (read b s n ≡ done (min (length (l.contents s)) n, take n (l.contents s), t))
        × (l.contents t ≡ drop n (l.contents s))
  unfolding read
  read-take s n v =
      let len = l.remaining-eq s v in
      let xs = l.contents s in
      let (t, e, _, ct) = copy_to_slice-Reads b l s (min (length xs) n) v (omega arith) in
      let call = read_at s n (min (length xs) n) _ t (ap (λ k. min k n) len) e in
      (t, call ∙ ap (λ k. done (min (length xs) n, k, t)) (take_least n xs), ct ∙ drop_least n xs)
    where
      take_least : (n : ℕ) (xs : List ℕ) → take (min (length xs) n) xs ≡ take n xs
      take_least n xs = elim (dec_lt n (length xs)) [
        | yes lt ↦ let e : min (length xs) n ≡ n = omega arith in ap (λ k. take k xs) e
        | no ge ↦
            let e : min (length xs) n ≡ length xs = omega arith in
            ap (λ k. take k xs) e
            ∙ take_all (length xs) xs (omega arith)
            ∙ sym (take_all n xs (omega arith))
      ]

      drop_least : (n : ℕ) (xs : List ℕ) → drop (min (length xs) n) xs ≡ drop n xs
      drop_least n xs = elim (dec_lt n (length xs)) [
        | yes lt ↦ let e : min (length xs) n ≡ n = omega arith in ap (λ k. drop k xs) e
        | no ge ↦
            let e : min (length xs) n ≡ length xs = omega arith in
            let none_left : (k : ℕ) → length xs ≤ k → drop k xs ≡ [] =
              λ k le. nil_of_length _ (omega (arith, length-drop k xs)) in
            ap (λ k. drop k xs) e
            ∙ none_left (length xs) (omega arith)
            ∙ sym (none_left n (omega arith))
      ]
