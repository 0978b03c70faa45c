-- ===== src/Buf/Tests.antt =====
-- The theorems on `Buf` at concrete readers.
use chiya.Prelude.{ℕ, arith, List, [], ◌∷◌}
use chiya.Buf.Read.{copy_to_slice}
use chiya.Buf.Read.Copy.{Reads, copy_to_slice-Reads}
use chiya.Buf.Slice.{slice_buf, slice_Lawful}
use chiya.Buf.Chain.{Chain, chain_buf, chain_Lawful}
use chiya.Buf.Take.{Take}
use chiya.Buf.Cursor.{Cursor}

abbrev three_bytes : List ℕ
three_bytes = 1 ∷ 2 ∷ 3 ∷ []

abbrev two_slices : Chain (List ℕ) (List ℕ)
two_slices = record { a = three_bytes; b = 4 ∷ 5 ∷ [] }

abbrev first_two : Take (List ℕ)
first_two = record { inner = three_bytes; limit = 2 }

abbrev from_one : Cursor
from_one = record { get_ref = three_bytes; position = 1 }

copy_to_slice-Reads_example :
    Reads
      (chain_Lawful slice_buf slice_buf slice_Lawful slice_Lawful)
      (1 ∷ 2 ∷ 3 ∷ 4 ∷ 5 ∷ [])
      4
      (copy_to_slice (chain_buf slice_buf slice_buf) two_slices 4)
unfolding chain_Lawful
copy_to_slice-Reads_example =
    copy_to_slice-Reads (chain_buf slice_buf slice_buf)
      (chain_Lawful slice_buf slice_buf slice_Lawful slice_Lawful) two_slices 4
      (omega arith, omega arith, omega arith) (omega arith)
