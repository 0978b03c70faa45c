-- ===== src/Fmt/Tests.antt =====
-- The theorem on the formats at a line with a quote, a letter, a newline and a byte past ASCII.
use chiya.Prelude.{ℕ, ◌≡◌, List, [], ◌∷◌, some, arith}
use chiya.Fmt.{debug, lower_hex, upper_hex, read_all, read_debug, read_hex, formats-read_all}

abbrev line : List ℕ
line = 34 ∷ 65 ∷ 10 ∷ 255 ∷ []

formats-read_all_example :
    (read_all read_debug 4 (debug line) ≡ some line)
    × (read_all read_hex 4 (lower_hex line) ≡ some line)
    × (read_all read_hex 4 (upper_hex line) ≡ some line)
formats-read_all_example =
    formats-read_all line (omega arith, (omega arith, (omega arith, (omega arith, tt))))
