-- ===== src/BytesMut/Endless.antt =====
-- `Extend<u8>::extend` of bytes/src/bytes_mut.rs, which reserves and calls itself on the same
-- iterator, and the loop of `Extend<Bytes>`.
use chiya.Prelude.{
  ℕ, zero, suc, ◌-◌, ◌≤◌, ◌≡◌, true, List, [], ◌∷◌, leb, Option, none, some, refl, arith,
}
use chiya.Memory.{Memory, Result, ok, panic, undefined, IsFresh, Eff, pure, ◌>>=◌}
use chiya.Memory.Returns.{Returns, returns}
use chiya.BytesMut.{BytesMut}
use chiya.BytesMut.Valid.{Valid}
use chiya.BytesMut.Grow.{reserve_more, extend_from_slice}
use chiya.BytesMut.Room.{Roomy, Affordable}
use chiya.BytesMut.Reserve.{reserve_more-Roomy}

module _ (spare : ℕ → ℕ) where
  -- Whether the calls nested `fuel` deep have returned; `lower` is the bound of `size_hint`.
  pub extend : ℕ → ℕ → Result BytesMut → Option (Result BytesMut)
  extend zero lower before = none
  extend (suc fuel) lower (ok self m) = extend fuel lower (reserve_more spare self lower m)
  extend (suc fuel) lower panic = some panic
  extend (suc fuel) lower undefined = some undefined

  -- `Extend<Bytes>`, of the bytes that each element shows
  unfoldable pub extend_bytes : BytesMut → List (List ℕ) → Eff BytesMut
  extend_bytes self [] = pure self
  extend_bytes self (bytes ∷ iter) =
      extend_from_slice spare self bytes >>= λ self'. extend_bytes self' iter

  roomy-extend :
      (fuel lower : ℕ) (h : BytesMut) (m : Memory)
      → lower ≤ h.cap - h.len
      → extend fuel lower (ok h m) ≡ none
  unfolding extend reserve_more
  roomy-extend zero lower h m le = refl
  roomy-extend (suc fuel) lower h m le =
      let fits : leb lower (h.cap - h.len) ≡ true = ground arith in
      rw fits (roomy-extend fuel lower h m le)

  returned-extend :
      (fuel lower : ℕ) (h : BytesMut) (m : Memory) (bs : List ℕ) (n : ℕ) (run : Result BytesMut)
      → Returns (λ h' m'. Roomy m h bs n lower (h', true) m') run
      → extend fuel lower run ≡ none
  returned-extend fuel lower h m bs n run (returns {a = h'} {m = m'} roomy) =
      roomy-extend fuel lower h' m' roomy.room

  -- From a memory in which nothing is allocated past `next` and a valid handle, where twice the
  -- block and the block with the bound of `size_hint` are at most `isize::MAX`, `extend` of an
  -- iterator of bytes has not returned after any number of nested calls.
  pub extend-none :
      (fuel lower : ℕ) (h : BytesMut) (m : Memory) (bs : List ℕ) (n : ℕ)
      → IsFresh m
      → Valid m h bs n
      → Affordable bs lower
      → extend fuel lower (ok h m) ≡ none
  unfolding extend
  extend-none zero lower h m bs n fresh v afford = refl
  extend-none (suc fuel) lower h m bs n fresh v afford =
      returned-extend fuel lower h m bs n _ (reserve_more-Roomy spare m h bs n lower fresh v afford)
