-- ===== src/Convert/Tests.antt =====
-- The conversions on small inputs.
use ola_os.Base.{
  ℕ, ◌%◌, ◌*◌, ◌+◌, ◌≡◌, ◌≢◌, ◌⊎◌, ◌∷◌, ◌++◌, refl, List, [], Option, none, some, returns, panics,
  arith, length, Option-cases, inl, inr, replicate,
}
use ola_os.Convert.{u64s_to_bytes, bytes_to_u64s, be_words_to_bytes, bytes_to_be_words, to_be_bytes}
use ola_os.Convert.Chunks.{u64s_to_bytes-bytes_to_u64s, bytes_to_be_words-be_words_to_bytes}
use ola_os.Convert.Bytecode.{
  program_bytecode_to_bytes, split_lines, trim_start_0x, even_digits, felts_to_bytes, pad_felt,
}

abbrev three : List ℕ
three = 0 ∷ 1 ∷ 258 ∷ []

-- The unit test of the source, and a byte that is not the last.
u64s_run : u64s_to_bytes three ≡ replicate 8 0 ++ replicate 7 0 ++ 1 ∷ replicate 6 0 ++ 1 ∷ 2 ∷ []
unfolding u64s_to_bytes to_be_bytes
u64s_run = refl

odd_run : bytes_to_u64s (1 ∷ 2 ∷ []) ≡ panics
unfolding bytes_to_u64s
odd_run = refl

abbrev eight : List ℕ
eight = 1 ∷ 2 ∷ 3 ∷ 4 ∷ 5 ∷ 6 ∷ 7 ∷ 255 ∷ []

u64s_to_bytes-bytes_to_u64s_example :
    ((length eight % 8 ≢ 0) × (bytes_to_u64s eight ≡ panics))
    ⊎ ((words : List ℕ) × (bytes_to_u64s eight ≡ returns words)
        × (u64s_to_bytes words ≡ eight)
        × (length words * 8 ≡ length eight))
u64s_to_bytes-bytes_to_u64s_example = u64s_to_bytes-bytes_to_u64s eight (ground arith)

bytes_to_be_words-be_words_to_bytes_example :
    bytes_to_be_words (be_words_to_bytes three) ≡ returns three
bytes_to_be_words-be_words_to_bytes_example =
    bytes_to_be_words-be_words_to_bytes three (ground arith)

-- A stand-in for `hex::decode` that pairs the digits 0 to 9 of its input.
abbrev decode_decimal : List ℕ → Option (List ℕ)
decode_decimal [] = some []
decode_decimal (a ∷ []) = none
decode_decimal (a ∷ b ∷ digits) = elim (decode_decimal digits) [
  | none ↦ none
  | some bytes ↦ some ((16 * (a % 48) + b % 48) ∷ bytes)
]

decode_halves :
    (digits felt : List ℕ) → decode_decimal digits ≡ some felt → length felt * 2 ≡ length digits
decode_halves [] felt e = ground arith
decode_halves (a ∷ []) felt e = ground arith
decode_halves (a ∷ b ∷ digits) felt e = elim (Option-cases (decode_decimal digits)) [
  | inl bad ↦ ground arith
  | inr (bytes, good) ↦ ground (arith, decode_halves digits bytes good)
]

-- 0x12, a newline, and the digit 7.
abbrev two_lines : List ℕ
two_lines = 48 ∷ 120 ∷ 49 ∷ 50 ∷ 10 ∷ 55 ∷ []

two_lines_run :
    program_bytecode_to_bytes decode_decimal two_lines
    ≡ returns (some (replicate 7 0 ++ 18 ∷ replicate 7 0 ++ 7 ∷ []))
unfolding program_bytecode_to_bytes split_lines trim_start_0x even_digits felts_to_bytes pad_felt
two_lines_run = refl
