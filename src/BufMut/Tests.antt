-- ===== src/BufMut/Tests.antt =====
-- The theorems on `BufMut` at concrete buffers.
use chiya.Prelude.{ℕ, ◌≤◌, ◌≡◌, arith, List, [], ◌∷◌, length}
use chiya.Prelude.Looping.{done}
use chiya.Buf.{usize_max}
use chiya.Buf.Words.{big}
use chiya.Buf.Read.{w16, get_unsigned}
use chiya.Buf.Chain.{Chain}
use chiya.Buf.Slice.{slice_buf, slice_Lawful}
use chiya.BufMut.Put
use chiya.BufMut.Put.{put_unsigned, put_signed, put_uint, write}
use chiya.BufMut.Put.Transfer.{Moves, put-Moves}
use chiya.BufMut.Slice.{SliceMut, slice_mut, slice_LawfulMut}
use chiya.BufMut.Limit.{Limit, limit_mut, limit_LawfulMut}
use chiya.BufMut.RoundTrip.{added, put_unsigned-get_unsigned}

abbrev four_zeros : SliceMut
four_zeros = record { passed = []; slice = 0 ∷ 0 ∷ 0 ∷ 0 ∷ [] }

-- A slice of one byte, and then one of four.
abbrev two_slices : Chain SliceMut SliceMut
two_slices = record { a = record { passed = []; slice = 0 ∷ [] }; b = four_zeros }

abbrev limited : Limit SliceMut
limited = record { inner = four_zeros; limit = 3 }

abbrev three_bytes : List ℕ
three_bytes = 1 ∷ 2 ∷ 3 ∷ []

put-Moves_example :
    Moves
      (limit_mut slice_mut)
      slice_buf
      (limit_LawfulMut slice_mut slice_LawfulMut)
      slice_Lawful
      limited
      three_bytes
      (Put.put (limit_mut slice_mut) slice_buf limited three_bytes)
put-Moves_example =
    put-Moves (limit_mut slice_mut) slice_buf (limit_LawfulMut slice_mut slice_LawfulMut)
      slice_Lawful limited three_bytes (omega arith) (omega arith) (omega arith)

put_unsigned-get_unsigned_example :
    (t : SliceMut) × (put_unsigned slice_mut w16 big four_zeros 258 ≡ done t)
    × (length t.slice ≤ usize_max)
    × (get_unsigned slice_buf w16 big (added slice_mut slice_LawfulMut four_zeros t)
        ≡ done (258, []))
put_unsigned-get_unsigned_example =
    put_unsigned-get_unsigned slice_mut slice_LawfulMut w16 big four_zeros 258 (omega arith)
      (omega arith) (omega arith)
