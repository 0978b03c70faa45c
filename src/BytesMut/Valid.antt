-- ===== src/BytesMut/Valid.antt =====
-- The states of a handle of `BytesMut`, and what a step on it leaves to the others.
use chiya.Prelude.{ℕ, ◌+◌, ◌/◌, ◌%◌, ◌^◌, ◌≤◌, ◌<◌, ◌≡◌, ◌≢◌, ◌⊎◌, List, length, take, drop, some}
use chiya.Memory.{VecU8, shared_v, Memory, IsFresh}
use chiya.BufMut.Vec.{isize_max}
use chiya.BytesMut.{BytesMut}

-- A vector of its own, of which the word holds the offset; `n` counts the handles of the block.
abbrev pub IsVec : BytesMut → List ℕ → ℕ → Type 0
IsVec h bs n =
    (h.word % 2 ≡ 1)
    × (h.word < 2 ^ 64)
    × (h.word / 32 ≡ h.ptr.offset)
    × (length bs ≡ h.ptr.offset + h.cap)
    × (n ≡ 1)

-- A box with the vector and the count of the handles.
abbrev pub IsShared : Memory → BytesMut → List ℕ → ℕ → Type 0
IsShared m h bs n =
    (h.word % 2 ≡ 0)
    × (vec : VecU8) × (repr : ℕ) × (m.cell h.word ≡ some (shared_v vec repr n))
    × (vec.buf ≡ h.ptr.block)
    × (vec.cap ≡ length bs)
    × (repr ≤ 7)
    × (1 ≤ n)

-- A handle on the block with the bytes `bs`, which has `n` handles.
pub record Valid (m : Memory) (h : BytesMut) (bs : List ℕ) (n : ℕ) : Type 0 where
  pub live : m.block h.ptr.block ≡ some bs
  pub inside : h.ptr.offset + h.cap ≤ length bs
  pub len_le : h.len ≤ h.cap
  pub small : length bs ≤ isize_max
  pub form : IsVec h bs n ⊎ IsShared m h bs n

abbrev pub window : BytesMut → List ℕ → List ℕ
window h bs = take h.len (drop h.ptr.offset bs)

-- In `m` the handle shows `xs`.
abbrev pub Shows : Memory → BytesMut → List ℕ → Type 0
Shows m h xs =
    (bs : List ℕ) × (m.block h.ptr.block ≡ some bs)
    × (h.ptr.offset + h.len ≤ length bs)
    × (window h bs ≡ xs)

-- Another handle, of another block or beside this one in the same block.
abbrev pub Beside : BytesMut → ℕ → BytesMut → Type 0
Beside h n g =
    (g.ptr.block ≢ h.ptr.block)
    ⊎ ((2 ≤ n) × ((g.ptr.offset + g.len ≤ h.ptr.offset) ⊎ (h.ptr.offset + h.cap ≤ g.ptr.offset)))

-- Every handle beside `h` shows in `m'` what it showed in `m`, and is beside `h'`.
abbrev pub Keeps : Memory → BytesMut → ℕ → Memory → BytesMut → ℕ → Type 0
Keeps m h n m' h' n' =
    (g : BytesMut) (xs : List ℕ) → Shows m g xs → Beside h n g → Shows m' g xs × Beside h' n' g

-- From `h` in `m` to the valid handle `h'` in `m'`.
pub record Step (m : Memory) (h : BytesMut) (n : ℕ) (m' : Memory) (h' : BytesMut) : Type 0 where
  pub fresh : IsFresh m'
  pub bytes : List ℕ
  pub count : ℕ
  pub valid : Valid m' h' bytes count
  pub keeps : Keeps m h n m' h' count

-- A step that shows `xs` at its end.
abbrev pub Becomes : Memory → BytesMut → ℕ → List ℕ → BytesMut → Memory → Type 0
Becomes m h n xs h' m' = (s : Step m h n m' h') × (window h' s.bytes ≡ xs)
