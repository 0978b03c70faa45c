-- ===== src/BufMut/Vec.antt =====
-- The overrides of `impl BufMut for Vec<u8>` of bytes/src/buf/buf_mut.rs. `Vec::reserve`,
-- `extend_from_slice` and `resize` panic where the new length is over `isize::MAX`.
use chiya.Prelude.{
  ℕ, zero, suc, ◌+◌, ◌-◌, ◌≤◌, ◌<◌, ◌^◌, ◌≡◌, ◌⊎◌, refl, ap, sym, ◌∙◌, true, false, List, [], ◌∷◌,
  ◌++◌, length, drop, replicate, min, leb, not, if◌then◌else◌, arith, append-nil, append_assoc,
  length-append, length-drop, nil_of_length, Bool-cases, inl, inr,
}
use chiya.Prelude.Looping.{Run, done, panic, stuck, ◌>>=◌, ◌>>◌, assert}
use chiya.Buf.{Buf, Lawful, usize_max}
use chiya.Buf.Read.{has_remaining}

abbrev pub isize_max : ℕ
isize_max = 2 ^ 63 - 1

abbrev pub remaining_mut : List ℕ → ℕ
remaining_mut self = isize_max - length self

abbrev pub extend_from_slice : List ℕ → List ℕ → Run (List ℕ)
extend_from_slice self src =
    if leb (length self + length src) isize_max then done (self ++ src) else panic

-- `resize` to `new_len`, at least the length of `self`.
abbrev pub resize : List ℕ → ℕ → ℕ → Run (List ℕ)
resize self new_len val =
    if leb new_len isize_max then done (self ++ replicate (new_len - length self) val) else panic

pub put_slice : List ℕ → List ℕ → Run (List ℕ)
put_slice self src = extend_from_slice self src

pub put_bytes : List ℕ → ℕ → ℕ → Run (List ℕ)
put_bytes self val cnt = let new_len = min (length self + cnt) usize_max in resize self new_len val

module _ {T : Type 0} (p : Buf T) where
  -- The loop of `put`: a whole chunk a round.
  pub extend_loop : ℕ → List ℕ → T → Run (List ℕ × T)
  extend_loop zero self src = if has_remaining p src then stuck else done (self, src)
  extend_loop (suc fuel) self src =
      if not (has_remaining p src)
      then done (self, src)
      else (let s = p.chunk src in
          (do
            self' ← extend_from_slice self s
            src' ← p.advance src (length s)
            extend_loop fuel self' src'))

  pub put : List ℕ → T → Run (List ℕ × T)
  put self src = do
    assert (leb (length self + p.remaining src) isize_max)
    extend_loop (p.remaining src) self src

-- `put_bytes` on a vector adds `cnt` times `val` where the new length is at most `isize::MAX`, and
-- panics past it.
pub put_bytes-replicate :
    (self : List ℕ) (val cnt : ℕ)
    → ((length self + cnt ≤ isize_max)
        × (put_bytes self val cnt ≡ done (self ++ replicate cnt val)))
      ⊎ ((isize_max < length self + cnt) × (put_bytes self val cnt ≡ panic))
unfolding put_bytes
put_bytes-replicate self val cnt =
    elim (Bool-cases (leb (min (length self + cnt) usize_max) isize_max)) [
      | inl fits ↦
          let all : min (length self + cnt) usize_max - length self ≡ cnt = ground arith in
          inl (ground arith, rw fits (ap (λ k. done (self ++ replicate k val)) all))
      | inr over ↦ inr (ground arith, rw over)
    ]

module _ {T : Type 0} (p : Buf T) (l : Lawful p) where
  extended_all :
      (self : List ℕ) (src : T)
      → l.IsValid src
      → l.contents src ≡ []
      → (u : T) × (◌≡◌ {A = Run (List ℕ × T)} (done (self, src)) (done (self ++ l.contents src, u)))
        × l.IsValid u
        × (l.contents u ≡ [])
  extended_all self src v nil =
      (src, ap (λ k. done (k, src)) (sym (ap (λ k. self ++ k) nil ∙ append-nil self)), v, nil)

  extend_loop-append :
      (fuel : ℕ) (self : List ℕ) (src : T)
      → l.IsValid src
      → p.remaining src ≤ fuel
      → length self + length (l.contents src) ≤ isize_max
      → (u : T) × (extend_loop p fuel self src ≡ done (self ++ l.contents src, u))
        × l.IsValid u
        × (l.contents u ≡ [])
  unfolding extend_loop
  extend_loop-append zero self src v hf h =
      let len = l.remaining-eq src v in
      let over : has_remaining p src ≡ false = ground arith in
      rw over (extended_all self src v (nil_of_length _ (omega arith)))
  extend_loop-append (suc fuel) self src v hf h =
      let len = l.remaining-eq src v in
      elim (Bool-cases (has_remaining p src)) [
        | inl more ↦
            let chunk = p.chunk src in
            let pos = l.chunk-pos src v (ground (arith, len)) in
            let split = l.chunk-append src v in
            let len_chunk : length (l.contents src) ≡ length chunk + length (l.chunk_rest src) =
              ap length split ∙ length-append chunk (l.chunk_rest src) in
            let fits : leb (length self + length chunk) isize_max ≡ true = ground arith in
            let (src', f, v', c) = l.advance-done src (length chunk) v (omega arith) in
            let len' = l.remaining-eq src' v' in
            let shorter : length (l.contents src') ≡ length (drop (length chunk) (l.contents src)) =
              ap length c in
            let len_drop = length-drop (length chunk) (l.contents src) in
            let (u, r, vu, nil) =
              extend_loop-append fuel (self ++ chunk) src' v' (omega arith)
                (omega (arith, length-append self chunk)) in
            let whole : chunk ++ l.contents src' ≡ l.contents src =
              ap (λ k. chunk ++ k)
                (c ∙ ap (drop (length chunk)) split ∙ drop_front chunk (l.chunk_rest src))
              ∙ sym split in
            (
              u,
              rw (more, fits)
                  (rw (f, r)
                    (ap (λ k. done (k, u))
                      (append_assoc self chunk (l.contents src') ∙ ap (λ k. self ++ k) whole))),
              vu,
              nil,
            )
        | inr over ↦ rw over (extended_all self src v (nil_of_length _ (ground (arith, len))))
      ]
    where
      drop_front : (xs ys : List ℕ) → drop (length xs) (xs ++ ys) ≡ ys
      drop_front [] ys = refl
      drop_front (x ∷ xs) ys = drop_front xs ys

  -- From a valid state of a lawful reader, where the vector may be as long as that, `put` on a
  -- vector ends, adds all that is left of `src` and leaves `src` empty.
  pub put-append :
      (self : List ℕ) (src : T)
      → l.IsValid src
      → length self + length (l.contents src) ≤ isize_max
      → (u : T) × (put p self src ≡ done (self ++ l.contents src, u))
        × l.IsValid u
        × (l.contents u ≡ [])
  unfolding put
  put-append self src v h =
      let len = l.remaining-eq src v in
      let fits : leb (length self + p.remaining src) isize_max ≡ true = ground arith in
      rw fits (extend_loop-append (p.remaining src) self src v (omega arith) h)
