-- ===== src/BytesMut/Room.antt =====
-- What `reserve_inner` of bytes/src/bytes_mut.rs has to leave: the bytes, room behind them, and the
-- bytes of the other handles.
pub mod Owned
pub mod Unique
pub mod Copied
use chiya.Prelude.{
  ℕ, ◌+◌, ◌-◌, ◌*◌, ◌≤◌, ◌≡◌, ◌≢◌, Bool, true, List, length, take, drop, some, inl, inr, refl, sym,
  ap, ◌∙◌, arith,
}
use chiya.Memory.{VecU8, Memory}
use chiya.Memory.Windows.{take-take_le, drop-take}
use chiya.BufMut.Vec.{isize_max}
use chiya.BytesMut.{BytesMut}
use chiya.BytesMut.Valid.{Becomes, Keeps, Beside, Shows, window}

-- There is room for `additional` bytes behind those of `h`, which are kept.
pub record Roomy (m : Memory) (h : BytesMut) (bs : List ℕ) (n additional : ℕ) (r : BytesMut × Bool)
    (m' : Memory) : Type 0 where
  pub done : r.1 ≡ true
  pub len : r.0.len ≡ h.len
  pub room : additional ≤ r.0.cap - r.0.len
  pub becomes : Becomes m h n (window h bs) r.0 m'

-- The sizes that the allocations need are no more than a vector may have.
pub record Affordable (bs : List ℕ) (additional : ℕ) : Type 0 where
  pub double : length bs * 2 ≤ isize_max
  pub sum : length bs + additional ≤ isize_max

-- Where the only handle of a block is changed, and other live blocks are not.
pub Keeps-elsewhere :
    (m m' : Memory) (h h' : BytesMut) (n' : ℕ)
    → ((b : ℕ) (ys : List ℕ)
        → b ≢ h.ptr.block
        → m.block b ≡ some ys
        → (m'.block b ≡ some ys) × (b ≢ h'.ptr.block))
    → Keeps m h 1 m' h' n'
Keeps-elsewhere m m' h h' n' others g xs (ys, live, inside, shows) beside = elim beside [
  | inl ne ↦
      (let (live', ne') = others g.ptr.block ys ne live in ((ys, live', inside, shows), inl ne'))
  | inr (two, _) ↦ absurd (omega arith)
]

-- A window in the part that two lists share.
pub window-prefix :
    (off len k : ℕ) (xs ys : List ℕ)
    → take k xs ≡ take k ys
    → off + len ≤ k
    → take len (drop off xs) ≡ take len (drop off ys)
window-prefix off len k xs ys same le =
    sym (take-take_le len (k - off) (drop off xs) (omega arith))
    ∙ ap (take len) (drop-take off k xs ∙ ap (drop off) same ∙ sym (drop-take off k ys))
    ∙ take-take_le len (k - off) (drop off ys) (omega arith)
