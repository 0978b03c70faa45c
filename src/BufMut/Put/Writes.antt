-- ===== src/BufMut/Put/Writes.antt =====
-- The writes of `BufMut` on a lawful implementation: they end, and they add their bytes.
use chiya.Prelude.{
  ℕ, zero, suc, ◌-◌, ◌≤◌, ◌<◌, ◌≡◌, refl, ap, sym, ◌∙◌, false, List, [], ◌∷◌, ◌++◌, length, take,
  drop, replicate, min, ltb, arith, append-nil, append_assoc, take-append-drop, length-take,
  length-drop, length-append, take_all, nil_of_length,
}
use chiya.Prelude.Looping.{Run, done, panic, stuck, ◌>>=◌}
use chiya.BufMut.{BufMut, LawfulMut}
use chiya.BufMut.Put.{put_chunk, put_loop, put_slice, fill_loop, put_bytes}

-- A run that adds `bs` to the bytes written from `s`, and leaves that much less room.
abbrev pub Writes : {S : Type 0} {b : BufMut S} → LawfulMut b → S → List ℕ → Run S → Type 0
Writes {S} {b} m s bs r =
    (t : S) × (r ≡ done t)
    × m.IsValid t
    × (m.written t ≡ m.written s ++ bs)
    × (b.remaining_mut t ≡ b.remaining_mut s - length bs)

replicate_split : (c n val : ℕ) → c ≤ n → replicate n val ≡ replicate c val ++ replicate (n - c) val
replicate_split zero n val h = ap (λ k. replicate k val) (omega arith)
replicate_split (suc c) zero val h = absurd (omega arith)
replicate_split (suc c) (suc n) val h =
    let left : n - c ≡ suc n - suc c = omega arith in
    ap (λ k. val ∷ k)
      (replicate_split c n val (omega arith) ∙ ap (λ k. replicate c val ++ replicate k val) left)

length-replicate : (n val : ℕ) → length (replicate n val) ≡ n
length-replicate zero val = refl
length-replicate (suc n) val = ap suc (length-replicate n val)

module _ {S : Type 0} (b : BufMut S) (m : LawfulMut b) where
  -- A round that writes `fst`, with the rounds after it.
  put_round :
      (s t : S) (fst snd all : List ℕ) (run : Run S)
      → all ≡ fst ++ snd
      → m.written t ≡ m.written s ++ fst
      → b.remaining_mut t ≡ b.remaining_mut s - length fst
      → Writes m t snd run
      → Writes m s all run
  put_round s t fst snd all run e wt rt (u, r, vu, wu, ru) = (
    u,
    r,
    vu,
    wu
        ∙ ap (λ k. k ++ snd) wt
        ∙ append_assoc (m.written s) fst snd
        ∙ ap (λ k. m.written s ++ k) (sym e),
    rw e (omega (arith, length-append fst snd)),
  )

  put_loop-Writes :
      (fuel : ℕ) (s : S) (src : List ℕ)
      → m.IsValid s
      → length src ≤ fuel
      → length src ≤ b.remaining_mut s
      → Writes m s src (put_loop b fuel s src)
  unfolding put_loop
  put_loop-Writes fuel s [] v hf h = (s, refl, v, sym (append-nil (m.written s)), omega arith)
  put_loop-Writes zero s (x ∷ src) v hf h = absurd (omega arith)
  put_loop-Writes (suc fuel) s (x ∷ src) v hf h =
      let cnt = min (suc (length src)) (b.chunk_mut s).0 in
      let fst = take cnt (x ∷ src) in
      let snd = drop cnt (x ∷ src) in
      let len_fst = length-take cnt (x ∷ src) in
      let len_snd = length-drop cnt (x ∷ src) in
      let pos = m.chunk_mut-pos s v (omega arith) in
      let (t, adv, vt, wt, rt) = m.advance_mut-done s fst cnt v (omega arith) (omega arith) in
      let rt' : b.remaining_mut t ≡ b.remaining_mut s - length fst = omega arith in
      rw adv (
        put_round s t fst snd (x ∷ src) (put_loop b fuel t snd)
          (sym (take-append-drop cnt (x ∷ src))) wt rt'
          (put_loop-Writes fuel t snd vt (omega arith) (omega arith)))

  -- On a valid state of a lawful writer with room for `src`, `put_slice` ends, adds it to the
  -- bytes written and takes its length from the room.
  pub put_slice-Writes :
      (s : S) (src : List ℕ)
      → m.IsValid s
      → length src ≤ b.remaining_mut s
      → Writes m s src (put_slice b s src)
  unfolding put_slice
  put_slice-Writes s src v h =
      let room : ltb (b.remaining_mut s) (length src) ≡ false = ground arith in
      rw room (put_loop-Writes (length src) s src v (omega arith) h)

  -- Where there is not, it panics before it writes.
  pub put_slice-panic :
      (s : S) (src : List ℕ) → b.remaining_mut s < length src → put_slice b s src ≡ panic
  unfolding put_slice
  put_slice-panic s src h = ground arith

  fill_loop-Writes :
      (fuel : ℕ) (s : S) (val cnt : ℕ)
      → m.IsValid s
      → cnt ≤ fuel
      → cnt ≤ b.remaining_mut s
      → Writes m s (replicate cnt val) (fill_loop b fuel s val cnt)
  unfolding fill_loop
  fill_loop-Writes fuel s val zero v hf h =
      (s, refl, v, sym (append-nil (m.written s)), omega arith)
  fill_loop-Writes zero s val (suc cnt) v hf h = absurd (omega arith)
  fill_loop-Writes (suc fuel) s val (suc cnt) v hf h =
      let len = min (b.chunk_mut s).0 (suc cnt) in
      let fst = replicate len val in
      let snd = replicate (suc cnt - len) val in
      let len_fst = length-replicate len val in
      let pos = m.chunk_mut-pos s v (omega arith) in
      let (t, adv, vt, wt, rt) = m.advance_mut-done s fst len v (omega arith) (omega arith) in
      let rt' : b.remaining_mut t ≡ b.remaining_mut s - length fst = omega arith in
      rw adv (
        put_round s t fst snd (replicate (suc cnt) val) (fill_loop b fuel t val (suc cnt - len))
          (replicate_split len (suc cnt) val (omega arith)) wt rt'
          (fill_loop-Writes fuel t val (suc cnt - len) vt (omega arith) (omega arith)))

  -- On a valid state of a lawful writer with room for `cnt` bytes, `put_bytes` ends, adds `cnt`
  -- times `val` to the bytes written and takes `cnt` from the room.
  pub put_bytes-Writes :
      (s : S) (val cnt : ℕ)
      → m.IsValid s
      → cnt ≤ b.remaining_mut s
      → Writes m s (replicate cnt val) (put_bytes b s val cnt)
  unfolding put_bytes
  put_bytes-Writes s val cnt v h =
      let room : ltb (b.remaining_mut s) cnt ≡ false = ground arith in
      rw room (fill_loop-Writes cnt s val cnt v (omega arith) h)

bind-done : {A : Type 0} (r : Run A) → (r >>= λ a. done a) ≡ r
bind-done (done a) = refl
bind-done panic = refl
bind-done stuck = refl

module _ {S : Type 0} (b : BufMut S) where
  pub put_slice-nil : (s : S) → put_slice b s [] ≡ done s
  unfolding put_slice put_loop
  put_slice-nil s = let room : ltb (b.remaining_mut s) 0 ≡ false = ground arith in rw room

  -- Where the chunk has room for all of it, `put_slice` is one write.
  pub put_slice_one :
      (s : S) (x : ℕ) (src : List ℕ)
      → length (x ∷ src) ≤ b.remaining_mut s
      → length (x ∷ src) ≤ (b.chunk_mut s).0
      → put_slice b s (x ∷ src) ≡ put_chunk b s (x ∷ src) (length (x ∷ src))
  unfolding put_slice put_loop
  put_slice_one s x src h hc =
      let room : ltb (b.remaining_mut s) (suc (length src)) ≡ false = ground arith in
      let all : min (suc (length src)) (b.chunk_mut s).0 ≡ suc (length src) = omega arith in
      rw room (
        ap
          (λ c. put_chunk b s (take c (x ∷ src)) c >>= λ s'.
            put_loop b (length src) s' (drop c (x ∷ src)))
          all
        ∙ ap
            (λ k.
              put_chunk b s (x ∷ k.0) (suc (length src)) >>= λ s'. put_loop b (length src) s' k.1)
            (whole src)
        ∙ bind-done (put_chunk b s (x ∷ src) (suc (length src))))
    where
      whole :
          (xs : List ℕ)
          → ◌≡◌ {A = List ℕ × List ℕ} (take (length xs) xs, drop (length xs) xs) (xs, [])
      whole xs = rw (
        take_all (length xs) xs (omega arith),
        nil_of_length _ (length-drop (length xs) xs ∙ omega arith),
      )
