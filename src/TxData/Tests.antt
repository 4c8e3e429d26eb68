-- ===== src/TxData/Tests.antt =====
-- The size of small transactions.
use ola_os.Base.{ℕ, ◌≡◌, ◌⊎◌, ◌∷◌, ◌++◌, refl, List, [], none, returns, panics, length, replicate}
use ola_os.Types.Tx
use ola_os.Types.Tx.{Transaction, TransactionType, l2}
use ola_os.TxData.{
  Value, u32_value, address_value, fields_value, abi_encode, into_tokens, encoded_transaction_size,
  from_transaction, abi_encode_with_custom_factory_deps, params, four, from_common, limbs,
}
use ola_os.TxData.Size.{IsWhole, IsPadded, into_tokens-cases}
use ola_os.Convert.{
  u64s_to_bytes, bytes_to_u64s, bytes_to_be_words, u256_to_h256, to_be_bytes, from_be_bytes,
  read_be, chunks_from,
}

-- A stand-in for the encoder: the values one after the other, a field list with its length.
abbrev encode_plainly : List Value → List ℕ
encode_plainly [] = []
encode_plainly (u32_value n ∷ vs) = n ∷ encode_plainly vs
encode_plainly (address_value words ∷ vs) = words ++ encode_plainly vs
encode_plainly (fields_value words ∷ vs) = length words ∷ words ++ encode_plainly vs

abbrev hash_plainly : List ℕ → ℕ
hash_plainly bytes = length bytes

abbrev small : Transaction
small = record {
  common_data = l2 (record {
    nonce = 3;
    initiator_address = 77;
    signature = replicate 8 1;
    transaction_type = TransactionType.ola_raw_transaction;
    input = none;
  });
  execute = record { contract_address = 5; calldata = replicate 24 2; factory_deps = none };
  received_timestamp_ms = 0;
}

-- 35 words of 8 bytes are 280 bytes, which fill 9 words of 32 bytes.
small_run : encoded_transaction_size encode_plainly hash_plainly small ≡ returns 9
unfolding encoded_transaction_size into_tokens abi_encode abi_encode_with_custom_factory_deps params
    limbs four from_transaction from_common u64s_to_bytes bytes_to_u64s bytes_to_be_words
    u256_to_h256 to_be_bytes from_be_bytes read_be chunks_from Tx.tx_type_number
small_run = refl

into_tokens-cases_example :
    (IsWhole (from_transaction small)
      × (bytes : List ℕ) × (tokens : List ℕ) × (abi_encode encode_plainly hash_plainly
            (from_transaction small)
          ≡ returns bytes)
      × (into_tokens encode_plainly hash_plainly (from_transaction small) ≡ returns tokens)
      × IsPadded bytes tokens)
    ⊎ ((¬ IsWhole (from_transaction small))
        × (into_tokens encode_plainly hash_plainly (from_transaction small) ≡ panics))
into_tokens-cases_example = into_tokens-cases encode_plainly hash_plainly (from_transaction small)
