-- ===== src/BufMut/Put/Transfer.antt =====
-- `put` and `Writer::write` on lawful implementations.
use chiya.Prelude.{
  ℕ, zero, suc, ◌+◌, ◌-◌, ◌≤◌, ◌<◌, ◌≡◌, refl, ap, sym, ◌∙◌, false, List, [], ◌++◌, length, take,
  drop, min, ltb, arith, append-nil, append_assoc, take-append-drop, take-append_le, length-take,
  length-drop, length-append, nil_of_length, Bool-cases, inl, inr,
}
use chiya.Prelude.Looping.{Run, done, panic}
use chiya.Buf.{Buf, Lawful}
use chiya.Buf.Read.{has_remaining}
use chiya.BufMut.{BufMut, LawfulMut}
use chiya.BufMut.Put.{put_slice, transfer, put, write}
use chiya.BufMut.Put.Writes.{Writes, put_slice-Writes}

module _ {S T : Type 0} (b : BufMut S) (p : Buf T) (m : LawfulMut b) (l : Lawful p) where
  -- A run that moves all of `bs` from the reader to the writer.
  abbrev pub Moves : S → List ℕ → Run (S × T) → Type 0
  Moves s bs r =
      (t : S) × (u : T) × (r ≡ done (t, u))
      × m.IsValid t
      × l.IsValid u
      × (m.written t ≡ m.written s ++ bs)
      × (b.remaining_mut t ≡ b.remaining_mut s - length bs)
      × (l.contents u ≡ [])

  -- A round that moves the first `c` bytes, with the rounds after it.
  move_round :
      (s s' : S) (c : ℕ) (bs chunk hidden rest : List ℕ) (run : Run (S × T))
      → bs ≡ chunk ++ hidden
      → c ≤ length chunk
      → rest ≡ drop c bs
      → m.written s' ≡ m.written s ++ take c chunk
      → b.remaining_mut s' ≡ b.remaining_mut s - c
      → Moves s' rest run
      → Moves s bs run
  move_round s s' c bs chunk hidden rest run e le er ws rs (t, u, r, vt, vu, wt, rt, nil) =
      let same : take c chunk ≡ take c bs =
        sym (take-append_le c chunk hidden le) ∙ ap (take c) (sym e) in
      let whole : take c chunk ++ rest ≡ bs =
        ap (λ k. k ++ rest) same ∙ ap (λ k. take c bs ++ k) er ∙ take-append-drop c bs in
      let len : length rest ≡ length (drop c bs) = ap length er in
      let len_bs : length bs ≡ length chunk + length hidden =
        ap length e ∙ length-append chunk hidden in
      (
        t,
        u,
        r,
        vt,
        vu,
        wt
            ∙ ap (λ k. k ++ rest) ws
            ∙ append_assoc (m.written s) (take c chunk) rest
            ∙ ap (λ k. m.written s ++ k) whole,
        omega (arith, length-drop c bs),
        nil,
      )

  moved_all :
      (s : S) (src : T)
      → m.IsValid s
      → l.IsValid src
      → l.contents src ≡ []
      → Moves s (l.contents src) (done (s, src))
  moved_all s src vs vr nil = (
    s,
    src,
    refl,
    vs,
    vr,
    sym (append-nil (m.written s)) ∙ ap (λ k. m.written s ++ k) (sym nil),
    (let none_left : length (l.contents src) ≡ 0 = ap length nil in omega arith),
    nil,
  )

  transfer-Moves :
      (fuel : ℕ) (s : S) (src : T)
      → m.IsValid s
      → l.IsValid src
      → p.remaining src ≤ fuel
      → p.remaining src ≤ b.remaining_mut s
      → Moves s (l.contents src) (transfer b p fuel s src)
  unfolding transfer
  transfer-Moves zero s src vs vr hf h =
      let len = l.remaining-eq src vr in
      let over : has_remaining p src ≡ false = ground arith in
      rw over (moved_all s src vs vr (nil_of_length _ (omega arith)))
  transfer-Moves (suc fuel) s src vs vr hf h =
      let len = l.remaining-eq src vr in
      elim (Bool-cases (has_remaining p src)) [
        | inl more ↦
            let chunk = p.chunk src in
            let c = min (length chunk) (b.chunk_mut s).0 in
            let pos = l.chunk-pos src vr (ground (arith, len)) in
            let pos_mut = m.chunk_mut-pos s vs (ground (arith, len)) in
            let len_chunk : length (l.contents src) ≡ length chunk + length (l.chunk_rest src) =
              ap length (l.chunk-append src vr) ∙ length-append chunk (l.chunk_rest src) in
            let (s', e, vs', ws, rs) =
              m.advance_mut-done s (take c chunk) c vs (omega (arith, length-take c chunk))
                (omega arith) in
            let (src', f, vr', cr) = l.advance-done src c vr (omega arith) in
            let len' = l.remaining-eq src' vr' in
            let shorter : length (l.contents src') ≡ length (drop c (l.contents src)) =
              ap length cr in
            let len_drop = length-drop c (l.contents src) in
            rw (more, e)
              (rw f (
                move_round s s' c (l.contents src) chunk (l.chunk_rest src) (l.contents src')
                  (transfer b p fuel s' src') (l.chunk-append src vr) (omega arith) cr ws rs
                  (transfer-Moves fuel s' src' vs' vr' (omega arith) (omega arith))))
        | inr over ↦ rw over (moved_all s src vs vr (nil_of_length _ (ground (arith, len))))
      ]

  -- Over a lawful writer and a lawful reader in valid states, where there is room for what is left
  -- of `src`, `put` ends, adds it to the bytes written, takes its length from the room and leaves
  -- `src` empty.
  pub put-Moves :
      (s : S) (src : T)
      → m.IsValid s
      → l.IsValid src
      → length (l.contents src) ≤ b.remaining_mut s
      → Moves s (l.contents src) (put b p s src)
  unfolding put
  put-Moves s src vs vr h =
      let len = l.remaining-eq src vr in
      let room : ltb (b.remaining_mut s) (p.remaining src) ≡ false = ground arith in
      rw room (transfer-Moves (p.remaining src) s src vs vr (omega arith) (omega arith))

  -- Where there is not, it panics.
  pub put-panic :
      (s : S) (src : T)
      → l.IsValid src
      → b.remaining_mut s < length (l.contents src)
      → put b p s src ≡ panic
  unfolding put
  put-panic s src vr h = ground (arith, l.remaining-eq src vr)

module _ {S : Type 0} (b : BufMut S) (m : LawfulMut b) where
  write_at :
      (s : S) (buf : List ℕ) (n : ℕ)
      → min (b.remaining_mut s) (length buf) ≡ n
      → Writes m s (take n buf) (put_slice b s (take n buf))
      → (t : S) × (write b s buf ≡ done (n, t))
        × m.IsValid t
        × (m.written t ≡ m.written s ++ take n buf)
  unfolding write
  write_at s buf n e (t, r, vt, wt, rt) = (t, rw (e, r), vt, wt)

  -- From a valid state of a lawful writer, `Writer::write` does not panic: it writes the front of
  -- the buffer that there is room for, and returns the length of that.
  pub write-take :
      (s : S) (buf : List ℕ)
      → m.IsValid s
      → (n : ℕ) × (t : S) × (n ≡ min (b.remaining_mut s) (length buf))
        × (write b s buf ≡ done (n, t))
        × m.IsValid t
        × (m.written t ≡ m.written s ++ take n buf)
  write-take s buf v =
      let n = min (b.remaining_mut s) (length buf) in
      let (t, r, vt, wt) =
        write_at s buf n refl
          (put_slice-Writes b m s (take n buf) v (omega (arith, length-take n buf))) in
      (n, t, refl, r, vt, wt)
