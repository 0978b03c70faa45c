-- ===== src/Bytes/Copy/Tests.antt =====
-- `copy_to_bytes` of the first two of three bytes, into an empty memory.
use chiya.Prelude.{ℕ, List, [], ◌∷◌, none, arith, refl}
use chiya.Memory.{Memory, IsFresh}
use chiya.Buf.Slice.{slice_buf, slice_Lawful}
use chiya.Bytes.Copy.{copy_to_bytes}
use chiya.Bytes.Copy.Moved.{Fills}
use chiya.Bytes.Copy.Shown.{Shown, copy_to_bytes-Shown}

abbrev no_memory : Memory
no_memory = record { next = 0; block = λ k. none; cell = λ k. none }

no_memory-IsFresh : IsFresh no_memory
no_memory-IsFresh = record { no_block = λ k le. refl; no_cell = λ k le. refl }

abbrev one_more : ℕ → ℕ
one_more n = 1

abbrev thousands : ℕ → ℕ
thousands block = 1000

abbrev three_bytes : List ℕ
three_bytes = 7 ∷ 8 ∷ 9 ∷ []

copy_to_bytes-Shown_example :
    Fills
      (Shown one_more thousands slice_buf slice_Lawful 2 three_bytes)
      (copy_to_bytes one_more thousands slice_buf three_bytes 2 no_memory)
copy_to_bytes-Shown_example =
    copy_to_bytes-Shown one_more thousands slice_buf slice_Lawful no_memory three_bytes 2
      no_memory-IsFresh (omega arith) (omega arith) (omega arith)
