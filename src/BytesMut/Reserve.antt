-- ===== src/BytesMut/Reserve.antt =====
-- `reserve` and `try_reclaim` of bytes/src/bytes_mut.rs in every state of a handle.
use chiya.Prelude.{
  ℕ, ◌+◌, ◌-◌, ◌%◌, ◌^◌, ◌≡◌, true, false, List, leb, ◌==◌, some, inl, inr, refl, sym, arith,
  Bool-cases,
}
use mathlib.Core.Path.{subst}
use chiya.Memory.{Memory, IsFresh, shared_v}
use chiya.Memory.Returns.{Returns, returns, Returns-and_then}
use chiya.BytesMut.{BytesMut}
use chiya.BytesMut.Valid.{Valid}
use chiya.BytesMut.Clone.{shared_at-ok}
use chiya.BytesMut.Grow.{
  reserve_vec, reserve_unique, reserve_copy, reserve_inner, reserve_more, try_reclaim,
}
use chiya.BytesMut.Room.{Roomy, Affordable}
use chiya.BytesMut.Room.Owned.{reserve_vec-Roomy}
use chiya.BytesMut.Room.Unique.{reserve_unique-Roomy}
use chiya.BytesMut.Room.Copied.{reserve_copy-Roomy}

Roomy-already :
    (m : Memory) (h : BytesMut) (bs : List ℕ) (n additional : ℕ)
    → IsFresh m
    → Valid m h bs n
    → leb additional (h.cap - h.len) ≡ true
    → Roomy m h bs n additional (h, true) m
Roomy-already m h bs n additional fresh v fits = record {
  done = refl;
  len = refl;
  room = ground arith;
  becomes = (
    record { fresh = fresh; bytes = bs; count = n; valid = v; keeps = λ g xs s b. (s, b) },
    refl,
  );
}

module _ (spare : ℕ → ℕ) where
  reserve_inner-Roomy :
      (m : Memory) (h : BytesMut) (bs : List ℕ) (n additional : ℕ)
      → IsFresh m
      → Valid m h bs n
      → Affordable bs additional
      → Returns (Roomy m h bs n additional) (reserve_inner spare h additional true m)
  unfolding reserve_inner
  reserve_inner-Roomy m h bs n additional fresh v afford = elim v.form [
    | inl (odd, small, offset, all, one) ↦
        let vec : (h.word % 2 == 1) ≡ true = ground arith in
        rw vec (
          subst (λ k. Returns (Roomy m h bs k additional) (reserve_vec spare h additional true m))
            (sym one)
            (reserve_vec-Roomy spare m h bs additional fresh (subst (λ k. Valid m h bs k) one v)
              afford (odd, small, offset, all, refl)))
    | inr (even, vec, repr, box, buf, whole, small, pos) ↦
        let inside = v.inside in
        let len_le = v.len_le in
        let sum = afford.sum in
        let arc : (h.word % 2 == 1) ≡ false = ground arith in
        let fits : leb (h.len + additional) (2 ^ 64 - 1) ≡ true = ground arith in
        rw (arc, fits, shared_at-ok m h.word vec repr n box)
          (elim (Bool-cases (n == 1)) [
            | inl one ↦
                let e : n ≡ 1 = ground arith in
                rw one (
                  subst
                    (λ k.
                      Returns (Roomy m h bs k additional)
                        (reserve_unique spare h additional (h.len + additional) true vec repr m))
                    (sym e)
                    (reserve_unique-Roomy spare m h bs additional vec repr fresh
                      (subst (λ k. Valid m h bs k) e v) even
                      (subst (λ k. m.cell h.word ≡ some (shared_v vec repr k)) e box) buf whole
                      small afford))
            | inr more ↦
                let e : n ≡ n - 1 + 1 = ground arith in
                rw more (
                  subst
                    (λ k.
                      Returns (Roomy m h bs k additional)
                        (reserve_copy spare h (h.len + additional) true repr m))
                    (sym e)
                    (reserve_copy-Roomy spare m h bs (n - 1) additional repr fresh
                      (subst (λ k. Valid m h bs k) e v) (ground arith) even small afford))
          ])
  ]

  -- From a memory in which nothing is allocated past `next` and a valid handle, where twice the
  -- block and the block with `additional` are at most `isize::MAX`, `reserve` returns a valid
  -- handle with the same bytes and room for `additional` more; every handle of another block, or
  -- before or behind this one in the same block, shows what it showed.
  pub reserve_more-Roomy :
      (m : Memory) (h : BytesMut) (bs : List ℕ) (n additional : ℕ)
      → IsFresh m
      → Valid m h bs n
      → Affordable bs additional
      → Returns
          (λ h' m'. Roomy m h bs n additional (h', true) m')
          (reserve_more spare h additional m)
  unfolding reserve_more
  reserve_more-Roomy m h bs n additional fresh v afford =
      elim (Bool-cases (leb additional (h.cap - h.len))) [
        | inl fits ↦ rw fits (returns (Roomy-already m h bs n additional fresh v fits))
        | inr over ↦ rw over (
            Returns-and_then (reserve_inner-Roomy m h bs n additional fresh v afford) (λ r m' y.
              returns (record { done = refl; len = y.len; room = y.room; becomes = y.becomes })))
      ]

  -- From a memory in which nothing is allocated past `next` and a valid handle, where twice the
  -- block and the block with `additional` are at most `isize::MAX`, `try_reclaim` answers true,
  -- with the same bytes and room for `additional` more: it allocates where it cannot reclaim.
  pub try_reclaim-Roomy :
      (m : Memory) (h : BytesMut) (bs : List ℕ) (n additional : ℕ)
      → IsFresh m
      → Valid m h bs n
      → Affordable bs additional
      → Returns (Roomy m h bs n additional) (try_reclaim spare h additional m)
  unfolding try_reclaim
  try_reclaim-Roomy m h bs n additional fresh v afford =
      elim (Bool-cases (leb additional (h.cap - h.len))) [
        | inl fits ↦ rw fits (returns (Roomy-already m h bs n additional fresh v fits))
        | inr over ↦ rw over (reserve_inner-Roomy m h bs n additional fresh v afford)
      ]
