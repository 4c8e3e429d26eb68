-- ===== src/Convert/Bytecode.antt =====
-- The bytecode of a program, from its lines of hexadecimal digits (`program_bytecode_to_bytes` of
-- utils/src/convert.rs). A string is the list of its UTF-8 bytes; `hex::decode` is a parameter.
use ola_os.Base.{
  ℕ, suc, ◌-◌, ◌*◌, ◌%◌, ◌≤◌, ◌≡◌, refl, Option, none, some, List, [], ◌∷◌, ◌++◌, arith, length,
  length-append, length-replicate, replicate, Outcome, returns, panics, ◌>>=◌, ◌==◌, leb, All,
  Option-cases, inl, inr, if◌then◌else◌,
}
use ola_os.Convert.{push_front}

-- `split("\n")`: a string without a newline is one piece.
unfoldable pub split_lines : List ℕ → List (List ℕ)
split_lines [] = [] ∷ []
split_lines (c ∷ cs) = let rest = split_lines cs in if c == 10 then [] ∷ rest else push_front c rest

-- `trim_start_matches("0x")` takes the prefix away as often as it stands there.
unfoldable pub trim_start_0x : List ℕ → List ℕ
trim_start_0x [] = []
trim_start_0x (c ∷ []) = c ∷ []
trim_start_0x (c ∷ d ∷ cs) =
    let rest = trim_start_0x cs in
    if c == 48 then (if d == 120 then rest else c ∷ d ∷ cs) else c ∷ d ∷ cs

-- A digit 0 in front where the number of digits is odd.
unfoldable pub even_digits : List ℕ → List ℕ
even_digits digits = if length digits % 2 == 1 then 48 ∷ digits else digits

-- The bytes at the right end of eight zeros; a ninth byte is out of the array's bounds.
unfoldable pub pad_felt : List ℕ → Outcome (List ℕ)
pad_felt felt =
    if leb (length felt) 8 then returns (replicate (8 - length felt) 0 ++ felt) else panics

abbrev pub prepend : List ℕ → Option (List ℕ) → Option (List ℕ)
prepend value none = none
prepend value (some bytes) = some (value ++ bytes)

-- No line has more than eight bytes of digits.
abbrev pub IsFelt : List ℕ → Type 0
IsFelt line = length (trim_start_0x line) ≤ 16

-- The answer has eight bytes for each line.
abbrev pub IsAligned : ℕ → Option (List ℕ) → Type 0
IsAligned lines none = Unit
IsAligned lines (some bytes) = length bytes ≡ lines * 8

module _ (decode : List ℕ → Option (List ℕ)) where
  unfoldable pub felts_to_bytes : List (List ℕ) → Outcome (Option (List ℕ))
  felts_to_bytes [] = returns (some [])
  felts_to_bytes (line ∷ lines) = elim (decode (even_digits (trim_start_0x line))) [
    | none ↦ returns none
    | some felt ↦ do
      value ← pad_felt felt
      rest ← felts_to_bytes lines
      returns (prepend value rest)
  ]

  unfoldable pub program_bytecode_to_bytes : List ℕ → Outcome (Option (List ℕ))
  unfolding felts_to_bytes
  program_bytecode_to_bytes bytecode = felts_to_bytes (split_lines bytecode)

  module _
      (decode_halves : (digits felt : List ℕ)
        → decode digits ≡ some felt
        → length felt * 2 ≡ length digits) where
    pad_felt_lem :
        (line felt : List ℕ)
        → IsFelt line
        → decode (even_digits (trim_start_0x line)) ≡ some felt
        → (value : List ℕ) × (pad_felt felt ≡ returns value) × (length value ≡ 8)
    unfolding pad_felt even_digits
    pad_felt_lem line felt h e =
        let halves = decode_halves (even_digits (trim_start_0x line)) felt e in
        let short : length felt ≤ 8 = ground (arith, halves) in
        (
          replicate (8 - length felt) 0 ++ felt,
          ground arith,
          omega (
            arith,
            length-append (replicate (8 - length felt) 0) felt,
            length-replicate {A = ℕ} (8 - length felt) 0,
          ),
        )

    felts_to_bytes_lem :
        (lines : List (List ℕ))
        → All IsFelt lines
        → (r : Option (List ℕ)) × (felts_to_bytes lines ≡ returns r) × IsAligned (length lines) r
    unfolding felts_to_bytes
    felts_to_bytes_lem [] h = (some [], refl, omega arith)
    felts_to_bytes_lem (line ∷ lines) h =
        elim (Option-cases (decode (even_digits (trim_start_0x line)))) [
          | inl bad ↦ (none, rw (felts_to_bytes, bad) refl, tt)
          | inr (felt, good) ↦
              let (value, padded, width) = pad_felt_lem line felt h.0 good in
              let (r, rest, aligned) = felts_to_bytes_lem lines h.1 in
              (
                prepend value r,
                rw (felts_to_bytes, good, padded, rest) refl,
                prepended value r width aligned,
              )
        ]
      where
        prepended :
            (value : List ℕ) (r : Option (List ℕ))
            → length value ≡ 8
            → IsAligned (length lines) r
            → IsAligned (suc (length lines)) (prepend value r)
        prepended value none width aligned = tt
        prepended value (some bytes) width aligned = omega (arith, length-append value bytes)

    -- If no line has more than 16 digits after its prefix, and `hex::decode` gives a byte for two
    -- digits, the conversion does not panic, and what it gives are eight bytes for each line.
    pub program_bytecode_to_bytes_lem :
        (bytecode : List ℕ)
        → All IsFelt (split_lines bytecode)
        → (r : Option (List ℕ)) × (program_bytecode_to_bytes bytecode ≡ returns r)
          × IsAligned (length (split_lines bytecode)) r
    unfolding program_bytecode_to_bytes
    program_bytecode_to_bytes_lem bytecode h = felts_to_bytes_lem (split_lines bytecode) h
