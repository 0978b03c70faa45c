-- ===== src/Fmt.antt =====
-- The formatting of bytes (bytes/src/fmt/debug.rs and bytes/src/fmt/hex.rs), as the characters that
-- are written, and a reader of one byte of each.
mod Tests
use chiya.Prelude.{
  ℕ, zero, suc, ◌+◌, ◌-◌, ◌*◌, ◌/◌, ◌%◌, ◌≤◌, ◌<◌, ◌≡◌, refl, ap, sym, ◌∙◌, Bool, true, false, List,
  [], ◌∷◌, ◌++◌, length, ◌==◌, ltb, leb, ◌&&◌, ◌||◌, if◌then◌else◌, Option, none, some, arith,
  Bool-cases, inl, inr, append_assoc, append-nil,
}

-- `{:02x}` and `{:02X}`
lower_digit : ℕ → ℕ
lower_digit d = if ltb d 10 then 48 + d else 87 + d

upper_digit : ℕ → ℕ
upper_digit d = if ltb d 10 then 48 + d else 55 + d

abbrev pub two_digits : (ℕ → ℕ) → ℕ → List ℕ
two_digits digit b = digit (b / 16) ∷ digit (b % 16) ∷ []

-- `LowerHex` and `UpperHex`
pub lower_hex : List ℕ → List ℕ
lower_hex [] = []
lower_hex (b ∷ bs) = two_digits lower_digit b ++ lower_hex bs

pub upper_hex : List ℕ → List ℕ
upper_hex [] = []
upper_hex (b ∷ bs) = two_digits upper_digit b ++ upper_hex bs

-- What `Debug` writes for one byte.
escape : ℕ → List ℕ
escape b =
    if b == 10
    then 92 ∷ 110 ∷ []
    else (if b == 13
        then 92 ∷ 114 ∷ []
        else (if b == 9
            then 92 ∷ 116 ∷ []
            else (if b == 92 || b == 34
                then 92 ∷ b ∷ []
                else (if b == 0
                    then 92 ∷ 48 ∷ []
                    else (if leb 32 b && ltb b 127
                        then b ∷ []
                        else 92 ∷ 120 ∷ two_digits lower_digit b)))))

pub debug : List ℕ → List ℕ
debug [] = []
debug (b ∷ bs) = escape b ++ debug bs

-- The value of a digit of either case.
digit_value : ℕ → ℕ
digit_value c = if leb 97 c then c - 87 else (if leb 65 c then c - 55 else c - 48)

-- The byte that two digits at the front stand for, and what follows.
pub read_hex : List ℕ → Option (ℕ × List ℕ)
read_hex [] = none
read_hex (h ∷ []) = none
read_hex (h ∷ l ∷ rest) = some (digit_value h * 16 + digit_value l, rest)

-- The byte that an escape at the front stands for, and what follows.
read_escape : List ℕ → Option (ℕ × List ℕ)
read_escape [] = none
read_escape (e ∷ rest) =
    if e == 110
    then some (10, rest)
    else (if e == 114
        then some (13, rest)
        else (if e == 116
            then some (9, rest)
            else (if e == 48
                then some (0, rest)
                else (if e == 120 then read_hex rest else some (e, rest)))))

pub read_debug : List ℕ → Option (ℕ × List ℕ)
read_debug [] = none
read_debug (c ∷ rest) = if c == 92 then read_escape rest else some (c, rest)

-- The first `n` bytes that a reader reads.
pub read_all : (List ℕ → Option (ℕ × List ℕ)) → ℕ → List ℕ → Option (List ℕ)
read_all read zero cs = some []
read_all read (suc n) cs = elim (read cs) [
  | none ↦ none
  | some p ↦ elim (read_all read n p.1) [ none ↦ none | some bs ↦ some (p.0 ∷ bs) ]
]

abbrev pub AreBytes : List ℕ → Type 0
AreBytes [] = Unit {0}
AreBytes (b ∷ bs) = (b < 256) × AreBytes bs

lower_digit-value : (d : ℕ) → d < 16 → digit_value (lower_digit d) ≡ d
unfolding lower_digit digit_value
lower_digit-value d lt = ground arith

upper_digit-value : (d : ℕ) → d < 16 → digit_value (upper_digit d) ≡ d
unfolding upper_digit digit_value
upper_digit-value d lt = ground arith

read_hex-lower :
    (b : ℕ) (rest : List ℕ) → b < 256 → read_hex (two_digits lower_digit b ++ rest) ≡ some (b, rest)
unfolding read_hex
read_hex-lower b rest lt =
    let high = lower_digit-value (b / 16) (omega arith) in
    let low = lower_digit-value (b % 16) (omega arith) in
    let e : digit_value (lower_digit (b / 16)) * 16 + digit_value (lower_digit (b % 16)) ≡ b =
      omega arith in
    ap (λ k. some (k, rest)) e

read_hex-upper :
    (b : ℕ) (rest : List ℕ) → b < 256 → read_hex (two_digits upper_digit b ++ rest) ≡ some (b, rest)
unfolding read_hex
read_hex-upper b rest lt =
    let high = upper_digit-value (b / 16) (omega arith) in
    let low = upper_digit-value (b % 16) (omega arith) in
    let e : digit_value (upper_digit (b / 16)) * 16 + digit_value (upper_digit (b % 16)) ≡ b =
      omega arith in
    ap (λ k. some (k, rest)) e

-- A byte that no arm of `Debug` names is printable, or written in digits.
read_debug-other :
    (b : ℕ) (rest : List ℕ)
    → b < 256
    → (b == 92) ≡ false
    → read_debug
        ((if leb 32 b && ltb b 127 then b ∷ [] else 92 ∷ 120 ∷ two_digits lower_digit b) ++ rest)
      ≡ some (b, rest)
unfolding read_debug read_escape
read_debug-other b rest lt plain = elim (Bool-cases (leb 32 b && ltb b 127)) [
  | inl printable ↦ rw printable (rw plain refl)
  | inr digits ↦ rw digits (read_hex-lower b rest lt)
]

read_debug-escape :
    (b : ℕ) (rest : List ℕ) → b < 256 → read_debug (escape b ++ rest) ≡ some (b, rest)
unfolding read_debug read_escape escape
read_debug-escape b rest lt = elim (Bool-cases (b == 10)) [
  | inl newline ↦ (let e : b ≡ 10 = ground arith in rw e refl)
  | inr no_newline ↦ elim (Bool-cases (b == 13)) [
    | inl return ↦ (let e : b ≡ 13 = ground arith in rw e refl)
    | inr no_return ↦ elim (Bool-cases (b == 9)) [
      | inl tab ↦ (let e : b ≡ 9 = ground arith in rw e refl)
      | inr no_tab ↦ elim (Bool-cases (b == 92)) [
        | inl backslash ↦ (let e : b ≡ 92 = ground arith in rw e refl)
        | inr no_backslash ↦ elim (Bool-cases (b == 34)) [
          | inl quote ↦ (let e : b ≡ 34 = ground arith in rw e refl)
          | inr no_quote ↦ elim (Bool-cases (b == 0)) [
            | inl nul ↦ (let e : b ≡ 0 = ground arith in rw e refl)
            | inr no_nul ↦
                rw (no_newline, no_return, no_tab, no_backslash, no_quote, no_nul)
                  (read_debug-other b rest lt no_backslash)
          ]
        ]
      ]
    ]
  ]
]

-- A format whose bytes are read back one by one is read back.
module _ (read : List ℕ → Option (ℕ × List ℕ)) (write : ℕ → List ℕ) (fmt : List ℕ → List ℕ)
    (fmt_cons : (b : ℕ) (bs : List ℕ) → fmt (b ∷ bs) ≡ write b ++ fmt bs)
    (back : (b : ℕ) (rest : List ℕ) → b < 256 → read (write b ++ rest) ≡ some (b, rest)) where
  read_all-fmt : (bs : List ℕ) → AreBytes bs → read_all read (length bs) (fmt bs) ≡ some bs
  unfolding read_all
  read_all-fmt [] valid = refl
  read_all-fmt (b ∷ bs) (lt, valid) =
      rw (fmt_cons b bs) (rw (back b (fmt bs) lt) (rw (read_all-fmt bs valid) refl))

-- Any bytes are read back, one after another, from what `Debug`, `LowerHex` and `UpperHex` write
-- of them.
pub formats-read_all :
    (bs : List ℕ)
    → AreBytes bs
    → (read_all read_debug (length bs) (debug bs) ≡ some bs)
      × (read_all read_hex (length bs) (lower_hex bs) ≡ some bs)
      × (read_all read_hex (length bs) (upper_hex bs) ≡ some bs)
unfolding debug lower_hex upper_hex
formats-read_all bs valid = (
  read_all-fmt read_debug escape debug (λ b bs. refl) read_debug-escape bs valid,
  read_all-fmt read_hex (two_digits lower_digit) lower_hex (λ b bs. refl) read_hex-lower bs valid,
  read_all-fmt read_hex (two_digits upper_digit) upper_hex (λ b bs. refl) read_hex-upper bs valid,
)
