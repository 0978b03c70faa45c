-- ===== src/BytesMut/Extend.antt =====
-- `extend_from_slice`, `put_bytes` and `resize` of bytes/src/bytes_mut.rs.
use chiya.Prelude.{
  ℕ, ◌+◌, ◌-◌, ◌≤◌, ◌≡◌, true, List, ◌++◌, length, take, drop, leb, ltb, ◌==◌, inl, inr, refl, sym,
  ap, ◌∙◌, arith, Bool-cases, replicate, length-replicate, length-take, length-drop, append-nil,
  take_all,
}
use mathlib.Core.Path.{subst}
use chiya.Memory.{add, Memory, ok, IsFresh, ◌>>◌, ◌>>=◌, write}
use chiya.Memory.Windows.{take-take_le}
use chiya.Memory.Returns.{Returns, returns, Returns-and_then}
use chiya.BytesMut.{BytesMut, truncate, set_len}
use chiya.BytesMut.Valid.{Valid, window, Becomes}
use chiya.BytesMut.Grow.{reserve_more, extend_from_slice, put_bytes, resize, advance_mut}
use chiya.BytesMut.Room.{Roomy, Affordable}
use chiya.BytesMut.Reserve.{reserve_more-Roomy}
use chiya.BytesMut.Fill.{filled-Becomes}

module _ (spare : ℕ → ℕ) where
  pub advance_mut-ok :
      (m : Memory) (h : BytesMut) (cnt : ℕ)
      → cnt ≤ h.cap - h.len
      → advance_mut spare h cnt m ≡ ok (record h { len = h.len + cnt }) m
  unfolding advance_mut
  advance_mut-ok m h cnt le =
      let fits : leb cnt (h.cap - h.len) ≡ true = ground arith in rw fits refl

  -- From a memory in which nothing is allocated past `next` and a valid handle, where twice the
  -- block and the block with `extend` are at most `isize::MAX`, `extend_from_slice` returns a
  -- valid handle that shows the bytes of before and then those of `extend`, whatever the standard
  -- library allocates more; every handle of another block, or before or behind this one in the
  -- same block, shows what it showed.
  pub extend_from_slice-Becomes :
      (m : Memory) (h : BytesMut) (bs src : List ℕ) (n : ℕ)
      → IsFresh m
      → Valid m h bs n
      → Affordable bs (length src)
      → Returns
          (λ h' m'. Becomes m h n (window h bs ++ src) h' m')
          (extend_from_slice spare h src m)
  unfolding extend_from_slice
  extend_from_slice-Becomes m h bs src n fresh v afford =
      Returns-and_then (reserve_more-Roomy spare m h bs n (length src) fresh v afford)
        (λ h' m' roomy.
          let room = roomy.room in
          let fits : leb (length src) (h'.cap - h'.len) ≡ true = ground arith in
          rw fits (
            filled-Becomes m m' h h' bs src n _ roomy
              (λ m''. advance_mut-ok m'' h' (length src) room)))

  pub put_bytes-Becomes :
      (m : Memory) (h : BytesMut) (bs : List ℕ) (val cnt n : ℕ)
      → IsFresh m
      → Valid m h bs n
      → Affordable bs cnt
      → Returns
          (λ h' m'. Becomes m h n (window h bs ++ replicate cnt val) h' m')
          (put_bytes spare h val cnt m)
  unfolding put_bytes
  put_bytes-Becomes m h bs val cnt n fresh v afford =
      let size : cnt ≡ length (replicate cnt val) = sym (length-replicate cnt val) in
      Returns-and_then (reserve_more-Roomy spare m h bs n cnt fresh v afford) (λ h' m' roomy.
        let room = roomy.room in
        let fits : leb cnt (h'.cap - h'.len) ≡ true = ground arith in
        rw fits (
          filled-Becomes m m' h h' bs (replicate cnt val) n _
            (subst (λ k. Roomy m h bs n k (h', true) m') size roomy)
            (λ m''.
              advance_mut-ok m'' h' cnt room
              ∙ ap (λ k. ok (record h' { len = h'.len + k }) m'') size)))

  truncate-Becomes :
      (m : Memory) (h : BytesMut) (bs : List ℕ) (n len : ℕ)
      → IsFresh m
      → Valid m h bs n
      → len ≤ h.len
      → Returns (λ h' m'. Becomes m h n (take len (window h bs)) h' m') (truncate len h m)
  unfolding truncate set_len
  truncate-Becomes m h bs n len fresh v le =
      let inside = v.inside in
      let len_le = v.len_le in
      let shorter : leb len h.len ≡ true = ground arith in
      let fits : leb len h.cap ≡ true = ground arith in
      rw (shorter, fits)
        (returns {a = record h { len = len }} (
          record {
            fresh = fresh;
            bytes = bs;
            count = n;
            valid = record {
              live = v.live;
              inside = v.inside;
              len_le = omega arith;
              small = v.small;
              form = v.form;
            };
            keeps = λ g xs s b. (s, b);
          },
          sym (take-take_le len h.len (drop h.ptr.offset bs) le),
        ))

  -- The bytes cut at `new_len`, or filled up to it by `value`.
  abbrev pub resized : List ℕ → ℕ → ℕ → List ℕ
  resized xs new_len value = take new_len xs ++ replicate (new_len - length xs) value

  -- What is added where there is something to add.
  longer-Becomes :
      (m : Memory) (h : BytesMut) (bs : List ℕ) (n new_len value : ℕ)
      → IsFresh m
      → Valid m h bs n
      → Affordable bs (new_len - h.len)
      → h.len ≤ new_len
      → Returns
          (λ h' m'. Becomes m h n (window h bs ++ replicate (new_len - h.len) value) h' m')
          ((reserve_more spare h (new_len - h.len) >>= λ roomy.
              write (add roomy.ptr roomy.len) (replicate (new_len - h.len) value)
              >> set_len new_len roomy)
            m)
  unfolding set_len
  longer-Becomes m h bs n new_len value fresh v afford le =
      let more = new_len - h.len in
      let src = replicate more value in
      let added : length src ≡ more = length-replicate more value in
      Returns-and_then (reserve_more-Roomy spare m h bs n more fresh v afford) (λ h' m' roomy.
        let room = roomy.room in
        let len = roomy.len in
        let len_le = roomy.becomes.0.valid.len_le in
        let fits : leb new_len h'.cap ≡ true = ground arith in
        let whole : new_len ≡ h'.len + length src = omega arith in
        filled-Becomes m m' h h' bs src n (set_len new_len h')
          (subst (λ k. Roomy m h bs n k (h', true) m') (sym added) roomy)
          (λ m''. rw fits (ap (λ k. ok (record h' { len = k }) m'') whole)))

  -- From a memory in which nothing is allocated past `next` and a valid handle, where twice the
  -- block and the block with what is added are at most `isize::MAX`, `resize` returns a valid
  -- handle that shows the bytes cut at `new_len`, or filled up to it with `value`; every handle of
  -- another block, or before or behind this one in the same block, shows what it showed.
  pub resize-Becomes :
      (m : Memory) (h : BytesMut) (bs : List ℕ) (n new_len value : ℕ)
      → IsFresh m
      → Valid m h bs n
      → Affordable bs (new_len - h.len)
      → Returns
          (λ h' m'. Becomes m h n (resized (window h bs) new_len value) h' m')
          (resize spare h new_len value m)
  unfolding resize set_len
  resize-Becomes m h bs n new_len value fresh v afford =
      let inside = v.inside in
      let len_le = v.len_le in
      let xs = window h bs in
      let size : length xs ≡ h.len =
        omega (arith, length-take h.len (drop h.ptr.offset bs), length-drop h.ptr.offset bs) in
      let more = new_len - h.len in
      elim (Bool-cases (ltb new_len h.len)) [
        | inl shorter ↦
            let zero : 0 ≡ new_len - length xs = ground (arith, size) in
            let e : take new_len xs ≡ resized xs new_len value =
              sym (append-nil (take new_len xs))
              ∙ ap (λ k. take new_len xs ++ replicate k value) zero in
            rw shorter (
              subst (λ k. Returns (λ h' m'. Becomes m h n k h' m') (truncate new_len h m)) e
                (truncate-Becomes m h bs n new_len fresh v (ground arith)))
        | inr longer ↦
            let e : xs ++ replicate more value ≡ resized xs new_len value =
              let same : more ≡ new_len - length xs = omega arith in
              ap (λ k. k ++ replicate more value) (sym (take_all new_len xs (ground (arith, size))))
              ∙ ap (λ k. take new_len xs ++ replicate k value) same in
            elim (Bool-cases (more == 0)) [
              | inl none_left ↦
                  let zero : 0 ≡ more = ground arith in
                  let f : xs ≡ resized xs new_len value =
                    sym (append-nil xs) ∙ ap (λ k. xs ++ replicate k value) zero ∙ e in
                  rw (longer, none_left)
                    (returns (
                      record {
                        fresh = fresh;
                        bytes = bs;
                        count = n;
                        valid = v;
                        keeps = λ g zs s b. (s, b);
                      },
                      f,
                    ))
              | inr some_left ↦
                  rw (longer, some_left)
                    (subst
                      (λ k.
                        Returns (λ h' m'. Becomes m h n k h' m')
                          ((reserve_more spare h more >>= λ roomy.
                              write (add roomy.ptr roomy.len) (replicate more value)
                              >> set_len new_len roomy)
                            m))
                      e (longer-Becomes m h bs n new_len value fresh v afford (ground arith)))
            ]
      ]
