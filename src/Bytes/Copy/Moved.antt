-- ===== src/Bytes/Copy/Moved.antt =====
-- `put` of bytes/src/bytes_mut.rs where there is room for all that the reader has: no vector grows.
use chiya.Prelude.{
  ℕ, zero, suc, ◌+◌, ◌-◌, ◌≤◌, ◌≡◌, refl, ap, sym, ◌∙◌, true, false, Option, some, List, [], ◌++◌,
  length, drop, leb, arith, append-nil, append_assoc, length-append, nil_of_length, Bool-cases, inl,
  inr, drop-append_ge,
}
use chiya.Prelude.Looping
use chiya.Prelude.Looping.{Run}
use chiya.Memory.{add, Memory, Result, ok, IsFresh}
use chiya.Memory.Access.{write-ok}
use chiya.Memory.Returns.{Returns, returns, Returns-weaken}
use chiya.Buf.{Buf, Lawful}
use chiya.Buf.Read.{has_remaining}
use chiya.BytesMut.{BytesMut}
use chiya.BytesMut.Valid.{Valid, window, Becomes}
use chiya.BytesMut.Grow.{extend_from_slice, reserve_more}
use chiya.BytesMut.Fill.{written, written-Becomes, Becomes-then}
use chiya.BytesMut.Extend.{advance_mut-ok}
use chiya.Bytes.Copy.{put}

-- With room, `extend_from_slice` is a write.
extend_from_slice-written :
    (spare : ℕ → ℕ) (m : Memory) (h : BytesMut) (bs src : List ℕ) (n : ℕ) (fresh : IsFresh m)
    (v : Valid m h bs n) (room : length src ≤ h.cap - h.len)
    → extend_from_slice spare h src m
      ≡ ok (record h { len = h.len + length src }) (written m h bs src n fresh v room)
unfolding extend_from_slice reserve_more
extend_from_slice-written spare m h bs src n fresh v room =
    let fits : leb (length src) (h.cap - h.len) ≡ true = ground arith in
    let inside = v.inside in
    let len_le = v.len_le in
    rw (fits) (
      rw (fits, write-ok m (add h.ptr h.len) src bs v.live (omega arith))
        (advance_mut-ok spare _ h (length src) room))

put-round :
    (spare : ℕ → ℕ) {T : Type 0} (p : Buf T) (fuel : ℕ) (m : Memory) (h : BytesMut) (src src' : T)
    {h' : BytesMut} {m' : Memory}
    → has_remaining p src ≡ true
    → extend_from_slice spare h (p.chunk src) m ≡ ok h' m'
    → p.advance src (length (p.chunk src)) ≡ Looping.done src'
    → put spare p (suc fuel) h src m ≡ put spare p fuel h' src' m'
unfolding put
put-round spare p fuel m h src src' more written moved = rw (more, written, moved, put) refl

-- A call with fuel that returns, with what holds then.
abbrev pub Fills : {A : Type 0} → (A → Memory → Type 0) → Option (Result A) → Type 0
Fills {A = A} P o = (r : Result A) × (o ≡ some r) × Returns P r

module _ (spare : ℕ → ℕ) {T : Type 0} (p : Buf T) (l : Lawful p) where
  -- All of `xs` is behind the bytes of the handle, and none is left in the reader.
  abbrev pub Moved : Memory → BytesMut → ℕ → List ℕ → BytesMut × T → Memory → Type 0
  Moved m h n xs q m' = Becomes m h n xs q.0 m' × l.IsValid q.1 × (l.contents q.1 ≡ [])

  Moved-none :
      (m : Memory) (h : BytesMut) (bs : List ℕ) (n : ℕ) (src : T)
      → IsFresh m
      → Valid m h bs n
      → l.IsValid src
      → l.contents src ≡ []
      → Moved m h n (window h bs ++ l.contents src) (h, src) m
  Moved-none m h bs n src fresh v vs nil = (
    (
      record { fresh = fresh; bytes = bs; count = n; valid = v; keeps = λ g zs s b. (s, b) },
      sym (append-nil (window h bs)) ∙ ap (λ k. window h bs ++ k) (sym nil),
    ),
    vs,
    nil,
  )

  -- With room for all that is left and as much fuel, `put` moves it.
  pub put-Fills :
      (fuel : ℕ) (m : Memory) (h : BytesMut) (bs : List ℕ) (n : ℕ) (src : T)
      → IsFresh m
      → Valid m h bs n
      → l.IsValid src
      → length (l.contents src) ≤ fuel
      → length (l.contents src) ≤ h.cap - h.len
      → Fills (Moved m h n (window h bs ++ l.contents src)) (put spare p fuel h src m)
  unfolding put
  put-Fills zero m h bs n src fresh v vs few room =
      let len = l.remaining-eq src vs in
      let over : has_remaining p src ≡ false = ground arith in
      rw over
        (_, refl, returns (Moved-none m h bs n src fresh v vs (nil_of_length _ (omega arith))))
  put-Fills (suc fuel) m h bs n src fresh v vs few room =
      let len = l.remaining-eq src vs in
      elim (Bool-cases (has_remaining p src)) [
        | inr over ↦ rw over (
          _,
          refl,
          returns (Moved-none m h bs n src fresh v vs (nil_of_length _ (ground (arith, len)))),
        )
        | inl more ↦
            let chunk = p.chunk src in
            let parts = l.chunk-append src vs in
            let whole : length (l.contents src) ≡ length chunk + length (l.chunk_rest src) =
              ap length parts ∙ length-append chunk (l.chunk_rest src) in
            let pos = l.chunk-pos src vs (ground (arith, len)) in
            let fits : length chunk ≤ h.cap - h.len = omega arith in
            let (src', e, vs', left) = l.advance-done src (length chunk) vs (omega arith) in
            let none_over : length chunk - length chunk ≡ 0 = omega arith in
            let rest : l.contents src' ≡ l.chunk_rest src =
              left
              ∙ ap (drop (length chunk)) parts
              ∙ drop-append_ge (length chunk) chunk (l.chunk_rest src) (omega arith)
              ∙ ap (λ k. drop k (l.chunk_rest src)) none_over in
            let size : length (l.contents src') ≡ length (l.chunk_rest src) = ap length rest in
            let step = written-Becomes m h bs chunk n fresh v fits in
            let h' : BytesMut = record h { len = h.len + length chunk } in
            let later =
              put-Fills fuel (written m h bs chunk n fresh v fits) h' step.0.bytes step.0.count src'
                step.0.fresh step.0.valid vs' (omega arith) (omega arith) in
            let bytes : window h' step.0.bytes ++ l.contents src' ≡ window h bs ++ l.contents src =
              ap (λ k. k ++ l.contents src') step.1
              ∙ append_assoc (window h bs) chunk (l.contents src')
              ∙ ap (λ k. window h bs ++ (chunk ++ k)) rest
              ∙ ap (λ k. window h bs ++ k) (sym parts) in
            let round =
              put-round spare p fuel m h src src' more
                (extend_from_slice-written spare m h bs chunk n fresh v fits) e in
            (
              later.0,
              round ∙ later.1,
              Returns-weaken later.2 λ q m'' moved. (
                Becomes-then m (written m h bs chunk n fresh v fits) m'' h h' q.0 n
                    (window h bs ++ chunk) (window h bs ++ l.contents src) step
                    (moved.0.0, moved.0.1 ∙ bytes),
                moved.1,
                moved.2,
              ),
            )
      ]
