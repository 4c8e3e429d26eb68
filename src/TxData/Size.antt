-- ===== src/TxData/Size.antt =====
-- The words of an encoded transaction and their number (vm/src/transaction_data.rs,
-- ola_core/src/sequencer/extractors.rs).
use ola_os.Base.{
  ℕ, zero, suc, ◌+◌, ◌-◌, ◌*◌, ◌/◌, ◌%◌, ◌≡◌, ◌≢◌, ◌⊎◌, inl, inr, refl, List, [], ◌∷◌, ◌++◌, map,
  arith, length, length-append, length-replicate, replicate, All, All-append, returns, panics,
  order-cases, less, same, more, flat_map,
}
use ola_os.Convert.{
  to_be_bytes, from_be_bytes, chunks, u64s_to_bytes, bytes_to_u64s, bytes_to_be_words,
  be_words_to_bytes, u256_to_h256,
}
use ola_os.Convert.Bytes.{IsByte, to_be_bytes-IsByte, length-to_be_bytes}
use ola_os.Convert.Chunks.{u64s_to_bytes-bytes_to_u64s, be_words_to_bytes-bytes_to_be_words}
use ola_os.Types.Tx.{Transaction}
use ola_os.TxData.{
  from_transaction, TransactionData, Value, encoded_transaction_size, four, params, abi_encode,
  abi_encode_with_custom_factory_deps, into_tokens,
}

-- Whether the byte strings of a transaction are whole words.
abbrev pub IsWhole : TransactionData → Type 0
IsWhole d =
    (length d.data_bytes % 8 ≡ 0)
    × (length d.signature % 8 ≡ 0)
    × (length d.reserved_dynamic % 8 ≡ 0)

pub u64s_to_bytes-IsByte : (arr : List ℕ) → All IsByte (u64s_to_bytes arr)
unfolding u64s_to_bytes
u64s_to_bytes-IsByte [] = tt
u64s_to_bytes-IsByte (n ∷ arr) =
    All-append IsByte (to_be_bytes 8 n) (flat_map (to_be_bytes 8) arr) (to_be_bytes-IsByte 8 n)
      (u64s_to_bytes-IsByte arr)

pub length-u64s_to_bytes : (arr : List ℕ) → length (u64s_to_bytes arr) ≡ length arr * 8
unfolding u64s_to_bytes
length-u64s_to_bytes [] = omega arith
length-u64s_to_bytes (n ∷ arr) = omega (
  arith,
  length-append (to_be_bytes 8 n) (flat_map (to_be_bytes 8) arr),
  length-to_be_bytes 8 n,
  length-u64s_to_bytes arr,
)

four_words_of :
    (n : ℕ)
    → (words : List ℕ) × (bytes_to_u64s (u256_to_h256 n) ≡ returns words)
      × (four words ≡ returns words)
unfolding u256_to_h256 four
four_words_of n = elim (u64s_to_bytes-bytes_to_u64s (to_be_bytes 32 n) (to_be_bytes-IsByte 32 n)) [
  | inl (ragged, bad) ↦ absurd (omega (arith, length-to_be_bytes 32 n))
  | inr (words, good, back, count) ↦ (words, good, ground (arith, length-to_be_bytes 32 n))
]

whole_words :
    (bytes : List ℕ)
    → ((length bytes % 8 ≡ 0) × (words : List ℕ) × (bytes_to_u64s bytes ≡ returns words))
      ⊎ ((length bytes % 8 ≢ 0) × (bytes_to_u64s bytes ≡ panics))
unfolding bytes_to_u64s
whole_words bytes = elim (order-cases 0 (length bytes % 8)) [
  | less ragged ↦ inr (omega arith, ground arith)
  | same whole ↦ inl (omega arith, map from_be_bytes (chunks 8 bytes), ground arith)
  | more bad ↦ absurd (omega arith)
]

-- The words of the encoding, with the zeros that fill them up.
pub IsPadded : List ℕ → List ℕ → Type 0
IsPadded bytes tokens =
    (length bytes % 8 ≡ 0)
    × (be_words_to_bytes tokens ≡ bytes ++ replicate (32 - length bytes % 32) 0)
    × (length tokens ≡ length bytes / 32 + 1)

module _ (encode : List Value → List ℕ) (hash_bytecode : List ℕ → ℕ) where
  abi_encode-cases :
      (d : TransactionData)
      → (IsWhole d
          × (words : List ℕ) × (abi_encode encode hash_bytecode d ≡ returns (u64s_to_bytes words)))
        ⊎ ((¬ IsWhole d) × (abi_encode encode hash_bytecode d ≡ panics))
  unfolding abi_encode abi_encode_with_custom_factory_deps
  abi_encode-cases d =
      let (from, from_words, from_four) = four_words_of d.from in
      let (to, to_words, to_four) = four_words_of d.to in
      elim (whole_words d.data_bytes) [
        | inr (ragged, bad) ↦
            inr (ground arith, rw (from_words, from_four, to_words, to_four, bad) refl)
        | inl (whole, data_words, good) ↦ elim (whole_words d.signature) [
          | inr (ragged, bad) ↦
              inr (ground arith, rw (from_words, from_four, to_words, to_four, good, bad) refl)
          | inl (whole', signature, good') ↦ elim (whole_words d.reserved_dynamic) [
            | inr (ragged, bad) ↦
                inr (
                  ground arith,
                  rw (from_words, from_four, to_words, to_four, good, good', bad) refl,
                )
            | inl (whole'', reserved, good'') ↦ inl (
              (whole, whole', whole''),
              encode (
                  params d from to data_words signature (map hash_bytecode d.factory_deps)
                    reserved),
              rw (from_words, from_four, to_words, to_four, good, good', good'') refl,
            )
          ]
        ]
      ]

  fill-IsPadded :
      (words : List ℕ)
      → let bytes = u64s_to_bytes words in
        let padding : List ℕ = replicate (32 - length bytes % 32) 0 in
        (tokens : List ℕ) × (bytes_to_be_words (bytes ++ padding) ≡ returns tokens)
        × IsPadded bytes tokens
  unfolding IsPadded
  fill-IsPadded words =
      let bytes = u64s_to_bytes words in
      let padding : List ℕ = replicate (32 - length bytes % 32) 0 in
      let size = length-append bytes padding in
      let filled = length-replicate {A = ℕ} (32 - length bytes % 32) 0 in
      elim (be_words_to_bytes-bytes_to_be_words (bytes ++ padding) (
        All-append IsByte bytes padding (u64s_to_bytes-IsByte words)
          (zeros-IsByte (32 - length bytes % 32)))) [
            | inl (ragged, bad) ↦ absurd (omega arith)
            | inr (tokens, good, back, count) ↦
                (tokens, good, (omega (arith, length-u64s_to_bytes words), back, omega arith))
          ]
    where
      zeros-IsByte : (k : ℕ) → All IsByte (replicate k 0)
      zeros-IsByte zero = tt
      zeros-IsByte (suc k) = (omega arith, zeros-IsByte k)

  -- A transaction whose byte strings are whole words becomes the ABI encoding filled up to 32-byte
  -- words, always by at least one byte, so that an encoding that is already full gets a word of
  -- zeros. Any other transaction panics.
  pub into_tokens-cases :
      (d : TransactionData)
      → (IsWhole d
          × (bytes : List ℕ) × (tokens : List ℕ) × (abi_encode encode hash_bytecode d
              ≡ returns bytes)
          × (into_tokens encode hash_bytecode d ≡ returns tokens)
          × IsPadded bytes tokens)
        ⊎ ((¬ IsWhole d) × (into_tokens encode hash_bytecode d ≡ panics))
  unfolding into_tokens
  into_tokens-cases d = elim (abi_encode-cases d) [
    | inr (ragged, bad) ↦ inr (ragged, rw bad refl)
    | inl (whole, words, good) ↦
        let (tokens, cut, padded) = fill-IsPadded words in
        inl (whole, u64s_to_bytes words, tokens, good, rw good (ground (arith, cut)), padded)
  ]

  -- The size of a transaction whose byte strings are whole words.
  pub encoded_transaction_size_returns :
      (tx : Transaction)
      → IsWhole (from_transaction tx)
      → (size : ℕ) × (encoded_transaction_size encode hash_bytecode tx ≡ returns size)
  unfolding encoded_transaction_size
  encoded_transaction_size_returns tx whole = elim (into_tokens-cases (from_transaction tx)) [
    | inl (w, bytes, tokens, coded, good, padded) ↦ (length tokens, rw good refl)
    | inr (ragged, bad) ↦ absurd (ragged whole)
  ]
