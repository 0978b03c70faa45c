-- ===== src/Bytes/Copy/Shown.antt =====
-- The provided `copy_to_bytes` of bytes/src/buf/buf_impl.rs, over any reader.
use chiya.Prelude.{
  ℕ, ◌+◌, ◌-◌, ◌≤◌, ◌≡◌, refl, ap, sym, ◌∙◌, true, false, Option, some, List, [], ◌++◌, length,
  take, drop, ltb, leb, arith, length-take, inl, drop-drop, take-append-drop,
}
use mathlib.Core.Path.{subst}
use chiya.Prelude.Looping.{done}
use chiya.Memory.{Memory, Result, ok, IsFresh, and_then}
use chiya.Memory.Access.{update_self, IsFresh-alloc}
use chiya.Memory.Reserve.{vec_of-ok, vec_block, length-vec_block}
use chiya.Memory.Vec.{capacity_for}
use chiya.Memory.Returns.{Returns, returns, Returns-and_then}
use chiya.BufMut.Vec.{isize_max}
use chiya.Buf.{Buf, Lawful}
use chiya.Buf.Take.{Take, take_buf, take_Lawful, contents_of, advance, length-contents_of}
use chiya.Bytes.{Bytes, as_slice}
use chiya.Bytes.Convert.{freeze}
use chiya.Bytes.Freeze.{freeze-Views}
use chiya.BytesMut.{BytesMut, from_vec, original_capacity_to_repr}
use chiya.BytesMut.Valid.{Valid, window}
use chiya.BytesMut.Grow.{with_capacity}
use chiya.Bytes.Copy.{copy_to_bytes, put, after, after_all}
use chiya.Bytes.Copy.Moved.{Fills, Moved, put-Fills}

drop-take : (n limit : ℕ) (xs : List ℕ) → n ≤ limit → drop (limit - n) (drop n xs) ≡ drop limit xs
drop-take n limit xs le =
    let e : n + (limit - n) ≡ limit = omega arith in
    drop-drop n (limit - n) xs ∙ ap (λ k. drop k xs) e

module _ {T : Type 0} (p : Buf T) (l : Lawful p) where
  -- What is behind the limit stays there.
  pub advance-rest :
      (s t : Take T) (n : ℕ)
      → l.IsValid s.inner
      → n ≤ length (l.contents s.inner)
      → n ≤ s.limit
      → advance p s n ≡ done t
      → drop t.limit (l.contents t.inner) ≡ drop s.limit (l.contents s.inner)
  unfolding advance
  advance-rest s t n v inside le e =
      let fits : leb n s.limit ≡ true = ground arith in
      let (u, f, vu, left) = l.advance-done s.inner n v inside in
      let made : advance p s n ≡ done (record { inner = u; limit = s.limit - n }) =
        rw (fits, f, advance) refl in
      let same : t ≡ record { inner = u; limit = s.limit - n } = cc in
      rw same (ap (drop (s.limit - n)) left ∙ drop-take n s.limit (l.contents s.inner) le)

  -- A `Take` of which it is known what comes behind its limit.
  rest_Lawful : List ℕ → Lawful (take_buf p)
  unfolding take_Lawful
  rest_Lawful rest =
      let base = take_Lawful p l in
      record {
        IsValid = λ s. l.IsValid s.inner × (drop s.limit (l.contents s.inner) ≡ rest);
        contents = base.contents;
        length_le = λ s v. base.length_le s v.0;
        remaining-eq = λ s v. base.remaining-eq s v.0;
        chunk_rest = base.chunk_rest;
        chunk-append = λ s v. base.chunk-append s v.0;
        chunk-pos = λ s v. base.chunk-pos s v.0;
        advance-done = λ s n v le.
            let (t, e, vt, left) = base.advance-done s n v.0 le in
            let size = length-contents_of p l s in
            (t, e, (vt, advance-rest s t n v.0 (omega arith) (omega arith) e ∙ v.1), left);
        advance-panic = λ s n v. base.advance-panic s n v.0;
      }

-- `with_capacity`: a valid handle that shows nothing and has the room.
record Made (len : ℕ) (h : BytesMut) (m' : Memory) : Type 0 where
  fresh : IsFresh m'
  bytes : List ℕ
  count : ℕ
  valid : Valid m' h bytes count
  empty : h.len ≡ 0
  room : len ≤ h.cap - h.len

with_capacity-Made :
    (spare : ℕ → ℕ) (m : Memory) (len : ℕ)
    → IsFresh m
    → len ≤ isize_max
    → Returns (Made len) (with_capacity spare len m)
unfolding with_capacity from_vec original_capacity_to_repr
with_capacity-Made spare m len fresh small =
    let made = vec_block spare [] len in
    let size : length made ≡ capacity_for spare len =
      length-vec_block spare [] len (omega arith) small in
    rw (vec_of-ok spare [] len m small) (
      returns (record {
        fresh = IsFresh-alloc m fresh made;
        bytes = made;
        count = 1;
        valid = record {
          live = update_self m.block m.next (some made);
          inside = omega arith;
          len_le = omega arith;
          small = omega arith;
          form = inl (omega arith, omega arith, omega arith, omega arith, refl);
        };
        empty = refl;
        room = omega arith;
      }))

Fills-after :
    {A B : Type 0} {P : A → Memory → Type 0} {Q : B → Memory → Type 0} {r : Result A}
    {next : A → Memory → Option (Result B)}
    → Returns P r
    → ((a : A) (m : Memory) → P a m → Fills Q (next a m))
    → Fills Q (after r next)
Fills-after (returns holds) continue = continue _ _ holds

Fills-after_all :
    {A B : Type 0} {P : A → Memory → Type 0} {Q : B → Memory → Type 0} (o : Option (Result A))
    (next : A → Memory → Option (Result B))
    → Fills P o
    → ((a : A) (m : Memory) → P a m → Fills Q (next a m))
    → Fills Q (after_all o next)
Fills-after_all o next (r, e, holds) continue = rw e (Fills-after holds continue)

module _ (spare base : ℕ → ℕ) {T : Type 0} (p : Buf T) (l : Lawful p) where
  -- The handle shows the first `len` bytes of `xs`, and the reader has the others.
  abbrev pub Shown : ℕ → List ℕ → Bytes × T → Memory → Type 0
  Shown len xs q m' =
      (as_slice q.0 m' ≡ ok (take len xs) m') × l.IsValid q.1 × (l.contents q.1 ≡ drop len xs)

  frozen-Shown :
      (m m' : Memory) (h : BytesMut) (n len : ℕ) (xs : List ℕ) (q : BytesMut × Take T)
      → Moved spare (take_buf p) (rest_Lawful p l (drop len xs)) m h n (take len xs) q m'
      → Returns (Shown len xs) (and_then (freeze base q.0 m') (λ b. ok (b, q.1.inner)))
  unfolding rest_Lawful take_Lawful contents_of
  frozen-Shown m m' h n len xs q (becomes, valid, none_left) =
      let step = becomes.0 in
      let inner = q.1.inner in
      let whole : l.contents inner ≡ drop len xs =
        sym (take-append-drop q.1.limit (l.contents inner))
        ∙ ap (λ k. k ++ drop q.1.limit (l.contents inner)) none_left
        ∙ valid.1 in
      Returns-and_then (freeze-Views base m' q.0 step.bytes step.count step.valid)
        λ b m'' shows. returns (shows ∙ ap (λ k. ok k m'') becomes.1, valid.0, whole)

  -- From a memory in which nothing is allocated past `next`, on a valid state of a lawful reader,
  -- the provided `copy_to_bytes` of at most as many bytes as are left, and at most `isize::MAX`,
  -- returns a `Bytes` that shows the next of them, and leaves a valid reader of the others.
  pub copy_to_bytes-Shown :
      (m : Memory) (src : T) (len : ℕ)
      → IsFresh m
      → l.IsValid src
      → len ≤ length (l.contents src)
      → len ≤ isize_max
      → Fills (Shown len (l.contents src)) (copy_to_bytes spare base p src len m)
  unfolding copy_to_bytes rest_Lawful take_Lawful contents_of
  copy_to_bytes-Shown m src len fresh v le small =
      let left = l.remaining-eq src v in
      let enough : ltb (p.remaining src) len ≡ false = ground arith in
      let xs = l.contents src in
      let taken : Take T = record { inner = src; limit = len } in
      let size : length (take len xs) ≡ len = omega (arith, length-take len xs) in
      rw enough (
        Fills-after (with_capacity-Made spare m len fresh small) λ h m' made.
          let nothing : window h made.bytes ++ take len xs ≡ take len xs =
            ap (λ k. take k (drop h.ptr.offset made.bytes) ++ take len xs) made.empty in
          let room = made.room in
          Fills-after_all (put spare (take_buf p) len h taken m') _
            (subst
              (λ k.
                Fills (Moved spare (take_buf p) (rest_Lawful p l (drop len xs)) m' h made.count k)
                  (put spare (take_buf p) len h taken m'))
              nothing
              (put-Fills spare (take_buf p) (rest_Lawful p l (drop len xs)) len m' h made.bytes
                made.count taken made.fresh made.valid (v, refl) (omega arith) (omega arith)))
            λ q m'' moved. (_, refl, frozen-Shown m' m'' h made.count len xs q moved))
