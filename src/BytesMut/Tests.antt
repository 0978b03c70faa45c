-- ===== src/BytesMut/Tests.antt =====
-- The theorems on `BytesMut` at concrete handles: a vector of four bytes, and a box of which the first
-- two bytes are one handle and the others another's.
use chiya.Prelude.{
  ℕ, ◌≡◌, refl, arith, true, false, List, [], ◌∷◌, ◌==◌, if◌then◌else◌, some, none, inl, inr,
}
use chiya.Memory.{shared_v, Memory, IsFresh, ok}
use chiya.Memory.Returns.{Returns}
use chiya.BytesMut.{BytesMut, split_off, release}
use chiya.BytesMut.Valid.{Valid, Becomes, window}
use chiya.BytesMut.Split.{Cuts, split_off-Cuts}
use chiya.BytesMut.Release.{Freed, release-Freed}
use chiya.BytesMut.Unsplit.{rejoin, rejoin-Joined}
use chiya.BytesMut.Grow.{reserve_more, extend_from_slice, resize, into_vec}
use chiya.BytesMut.Room.{Roomy, Affordable}
use chiya.BytesMut.Reserve.{reserve_more-Roomy}
use chiya.BytesMut.Extend.{extend_from_slice-Becomes, resize-Becomes}
use chiya.BytesMut.Endless.{extend, extend-none}
use chiya.BytesMut.IntoVec.{Holds, into_vec-Holds}

abbrev four : List ℕ
four = 10 ∷ 20 ∷ 30 ∷ 40 ∷ []

abbrev no_spare : ℕ → ℕ
no_spare n = 0

abbrev vec_memory : Memory
vec_memory = record { next = 1; block = λ k. if k == 0 then some four else none; cell = λ k. none }

abbrev vec_handle : BytesMut
vec_handle = record { ptr = record { block = 0; offset = 0 }; len = 3; cap = 4; word = 1 }

vec-IsFresh : IsFresh vec_memory
vec-IsFresh = record {
  no_block = λ k le. let ne : (k == 0) ≡ false = ground arith in rw ne refl;
  no_cell = λ k le. refl;
}

vec-Valid : Valid vec_memory vec_handle four 1
vec-Valid = record {
  live = refl;
  inside = omega arith;
  len_le = omega arith;
  small = omega arith;
  form = inl (refl, omega arith, refl, refl, refl);
}

abbrev box_memory : Memory
box_memory = record {
  next = 2;
  block = λ k. if k == 0 then some four else none;
  cell = λ k. if k == 2 then some (shared_v (record { buf = 0; len = 4; cap = 4 }) 0 2) else none;
}

abbrev left_handle : BytesMut
left_handle = record { ptr = record { block = 0; offset = 0 }; len = 2; cap = 2; word = 2 }

box-IsFresh : IsFresh box_memory
box-IsFresh = record {
  no_block = λ k le. let ne : (k == 0) ≡ false = ground arith in rw ne refl;
  no_cell = λ k le. let ne : (k == 2) ≡ false = ground arith in rw ne refl;
}

left-Valid : Valid box_memory left_handle four 2
left-Valid = record {
  live = refl;
  inside = omega arith;
  len_le = omega arith;
  small = omega arith;
  form =
      inr
        (refl, record { buf = 0; len = 4; cap = 4 }, 0, refl, refl, refl, omega arith, omega arith);
}

afford : Affordable four 3
afford = record { double = omega arith; sum = omega arith }

split_off-Cuts_example :
    Returns
      (λ p m'. Cuts vec_memory vec_handle four 1 1 p.0 p.1 m')
      (split_off vec_handle 1 vec_memory)
split_off-Cuts_example =
    split_off-Cuts vec_memory vec_handle four 1 1 vec-IsFresh vec-Valid (omega arith) (omega arith)

release-Freed_example :
    Returns (λ _ m'. Freed vec_memory vec_handle m') (release vec_handle vec_memory)
release-Freed_example = release-Freed vec_memory vec_handle four vec-IsFresh vec-Valid

rejoin-Joined_example :
    Returns
      (λ r m'.
        (r.1 ≡ true)
        × (r.0.ptr ≡ vec_handle.ptr)
        × (r.0.cap ≡ 4)
        × IsFresh m'
        × Valid m' r.0 four 1
        × (window r.0 four ≡ 10 ∷ 20 ∷ 30 ∷ []))
      (rejoin vec_handle 2 vec_memory)
rejoin-Joined_example =
    rejoin-Joined vec_memory vec_handle four 1 2 vec-IsFresh vec-Valid (omega arith) (omega arith)

reserve_more-Roomy_example :
    Returns
      (λ h' m'. Roomy box_memory left_handle four 2 3 (h', true) m')
      (reserve_more no_spare left_handle 3 box_memory)
reserve_more-Roomy_example =
    reserve_more-Roomy no_spare box_memory left_handle four 2 3 box-IsFresh left-Valid afford

extend_from_slice-Becomes_example :
    Returns
      (λ h' m'. Becomes box_memory left_handle 2 (10 ∷ 20 ∷ 7 ∷ 8 ∷ 9 ∷ []) h' m')
      (extend_from_slice no_spare left_handle (7 ∷ 8 ∷ 9 ∷ []) box_memory)
extend_from_slice-Becomes_example =
    extend_from_slice-Becomes no_spare box_memory left_handle four (7 ∷ 8 ∷ 9 ∷ []) 2 box-IsFresh
      left-Valid afford

resize-Becomes_example :
    Returns
      (λ h' m'. Becomes box_memory left_handle 2 (10 ∷ 20 ∷ 0 ∷ 0 ∷ 0 ∷ []) h' m')
      (resize no_spare left_handle 5 0 box_memory)
resize-Becomes_example =
    resize-Becomes no_spare box_memory left_handle four 2 5 0 box-IsFresh left-Valid afford

extend-none_example : extend no_spare 100 3 (ok left_handle box_memory) ≡ none
extend-none_example =
    extend-none no_spare 100 3 left_handle box_memory four 2 box-IsFresh left-Valid afford

into_vec-Holds_example : Returns (Holds (10 ∷ 20 ∷ [])) (into_vec no_spare left_handle box_memory)
into_vec-Holds_example =
    into_vec-Holds no_spare box_memory left_handle four 2 left-Valid box-IsFresh
