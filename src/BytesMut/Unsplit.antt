-- ===== src/BytesMut/Unsplit.antt =====
-- `try_unsplit` of bytes/src/bytes_mut.rs joins what was split.
use chiya.Prelude.{
  ℕ, ◌+◌, ◌-◌, ◌%◌, ◌≤◌, ◌≡◌, List, ◌++◌, take, drop, true, arith, ◌==◌, refl, inl, inr, ◌∙◌, sym,
  ap, drop-drop, Bool-cases, take-split, take-append-drop, Bool,
}
use chiya.Memory.{Memory, IsFresh, Eff, ◌>>=◌}
use chiya.Memory.Returns.{Returns, returns, Returns-and_then, Returns-weaken}
use chiya.BytesMut.{BytesMut, try_unsplit, split_off}
use chiya.BytesMut.Valid.{Valid, window}
use chiya.BytesMut.Split.{Halves, Valid-window, split_off-Cuts}
use chiya.BufMut.Vec.{isize_max}
use chiya.BytesMut.Release.{release-Dropped, Valid-pos}

-- What was two halves is one window.
pub record Joined (a b : BytesMut) (bs : List ℕ) (n : ℕ) (xs : List ℕ) (r : BytesMut × Bool)
    (m' : Memory) : Type 0 where
  pub done : r.1 ≡ true
  pub start : r.0.ptr ≡ a.ptr
  pub room : r.0.cap ≡ a.cap + b.cap
  pub fresh : IsFresh m'
  pub valid : Valid m' r.0 bs n
  pub shows : window r.0 bs ≡ xs

window-Halves :
    (m : Memory) (a b : BytesMut) (bs : List ℕ) (n : ℕ) (xs ys : List ℕ)
    → Halves m a b bs n xs ys
    → a.len ≡ a.cap
    → take (a.len + b.len) (drop a.ptr.offset bs) ≡ xs ++ ys
window-Halves m a b bs n xs ys v full =
    let split = take-split a.len (a.len + b.len) (drop a.ptr.offset bs) (omega arith) in
    let count : a.len + b.len - a.len ≡ b.len = omega arith in
    let start : a.ptr.offset + a.len ≡ b.ptr.offset = ground (arith, v.apart) in
    let right : drop a.len (drop a.ptr.offset bs) ≡ drop b.ptr.offset bs =
      drop-drop a.ptr.offset a.len bs ∙ ap (λ k. drop k bs) start in
    split
    ∙ ap (λ k. k ++ take (a.len + b.len - a.len) (drop a.len (drop a.ptr.offset bs))) v.left_shows
    ∙ ap (λ k. xs ++ take k (drop a.len (drop a.ptr.offset bs))) count
    ∙ ap (λ k. xs ++ take b.len k) right
    ∙ ap (λ k. xs ++ k) v.right_shows

pub try_unsplit-Joined :
    (m : Memory) (a b : BytesMut) (bs : List ℕ) (n : ℕ) (xs ys : List ℕ)
    → Halves m a b bs (n + 1) xs ys
    → 1 ≤ n
    → a.len ≡ a.cap
    → Returns (Joined a b bs n (xs ++ ys)) (try_unsplit a b m)
unfolding try_unsplit
try_unsplit-Joined m a b bs n xs ys v pos full =
    let dropped = release-Dropped m b bs n v.fresh v.right pos in
    let window = window-Halves m a b bs (n + 1) xs ys v full in
    elim (Bool-cases (b.cap == 0)) [
      | inl none_left ↦
          (let len_le = v.right.len_le in
            let none_more : a.len ≡ a.len + b.len = ground arith in
            rw none_left (
              Returns-and_then dropped (λ _ m' d. returns (record {
                done = refl;
                start = refl;
                room = ground arith;
                fresh = d.fresh;
                valid = d.others a v.left (sym v.word) (sym v.block);
                shows = ap (λ k. take k (drop a.ptr.offset bs)) none_more ∙ window;
              }))))
      | inr some_left ↦
          let apart = v.apart in
          let word = v.word in
          let even = v.even in
          let block : (a.ptr.block == b.ptr.block) ≡ true = ground (arith, v.block) in
          let start : (a.ptr.offset + a.len == b.ptr.offset) ≡ true = ground arith in
          let arc : (a.word % 2 == 0) ≡ true = ground arith in
          let arc' : (b.word % 2 == 0) ≡ true = ground arith in
          let same : (a.word == b.word) ≡ true = ground arith in
          rw (some_left, block, start, arc, arc', same)
            (Returns-and_then dropped (λ _ m' d. returns (record {
              done = refl;
              start = refl;
              room = refl;
              fresh = d.fresh;
              valid =
                  Valid-window m' a _ bs n (d.others a v.left (sym v.word) (sym v.block)) even refl
                    refl (let inside = v.right.inside in omega arith)
                    (let len_le = v.right.len_le in omega arith);
              shows = window;
            })))
    ]

-- `split_off`, then `try_unsplit` of the halves.
abbrev pub rejoin : BytesMut → ℕ → Eff (BytesMut × Bool)
rejoin h at = do (a, b) ← split_off h at; try_unsplit a b

-- From a memory in which nothing is allocated past `next` and a valid handle with at most
-- `isize::MAX` handles of its block, `split_off` at most at the length and then `try_unsplit` of
-- the halves joins them, with the pointer, the capacity, the bytes and the count of before.
pub rejoin-Joined :
    (m : Memory) (h : BytesMut) (bs : List ℕ) (n at : ℕ)
    → IsFresh m
    → Valid m h bs n
    → n ≤ isize_max
    → at ≤ h.len
    → Returns
        (λ r m'.
          (r.1 ≡ true)
          × (r.0.ptr ≡ h.ptr)
          × (r.0.cap ≡ h.cap)
          × IsFresh m'
          × Valid m' r.0 bs n
          × (window r.0 bs ≡ window h bs))
        (rejoin h at m)
rejoin-Joined m h bs n at fresh v few le =
    let len_le = v.len_le in
    Returns-and_then (split_off-Cuts m h bs n at fresh v few (omega arith)) (λ p m' c.
      Returns-weaken
        (try_unsplit-Joined m' p.0 p.1 bs n _ _ c.halves (Valid-pos m h bs n v)
          (let l = c.len in let k = c.cap in ground arith))
        (λ r m'' j. (
          j.done,
          j.start ∙ c.ptr,
          (let room = j.room in let k = c.cap in let rest = c.rest in omega arith),
          j.fresh,
          j.valid,
          j.shows ∙ take-append-drop at (window h bs),
        )))
