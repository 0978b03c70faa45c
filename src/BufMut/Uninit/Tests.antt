-- ===== src/BufMut/Uninit/Tests.antt =====
-- The theorem on slices that may be uninitialised, at one of two bytes.
use chiya.Prelude.{ℕ, ◌≡◌, ◌≢◌, ◌⊎◌, [], ◌∷◌, none, some, value, panic}
use chiya.BufMut.Uninit.{
  UninitSlice, new, write_byte, copy_from_slice, write_bytes, copy_from_slice-cases,
}

abbrev half_written : UninitSlice
half_written = some 1 ∷ none ∷ []

copy_from_slice-cases_example :
    ((◌≡◌ {A = ℕ} 2 2)
      × (copy_from_slice half_written (8 ∷ 9 ∷ []) ≡ value (new (8 ∷ 9 ∷ [])))
      × (write_bytes half_written 0 (8 ∷ 9 ∷ []) ≡ value (new (8 ∷ 9 ∷ []))))
    ⊎ ((◌≢◌ {A = ℕ} 2 2)
        × (copy_from_slice half_written (8 ∷ 9 ∷ []) ≡ panic)
        × (write_byte half_written 2 0 ≡ panic))
copy_from_slice-cases_example = copy_from_slice-cases half_written (8 ∷ 9 ∷ [])
