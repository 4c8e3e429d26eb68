-- ===== src/TxData.antt =====
-- The form in which a transaction goes to the virtual machine (vm/src/transaction_data.rs). The ABI
-- encoder of the `ola_lang_abi` crate and the bytecode hash are parameters.
pub mod Size
mod Tests
use ola_os.Base.{
  ℕ, ◌+◌, ◌-◌, ◌*◌, ◌/◌, ◌%◌, ◌^◌, Option, none, some, List, [], ◌∷◌, ◌++◌, map, Outcome, returns,
  panics, assert, ◌>>=◌, ◌>>◌, ◌==◌, ltb, length, replicate, flat_map, if◌then◌else◌,
}
use ola_os.Base.Words.{u64_mod, u32_mod}
use ola_os.Types.Tx.{
  Execute, Transaction, TransactionType, ExecuteTransactionCommon, l2, protocol_upgrade,
  tx_type_number,
}
use ola_os.Convert.{u64s_to_bytes, bytes_to_u64s, bytes_to_be_words, u256_to_h256}

pub record TransactionData : Type 0 where
  pub tx_type : ℕ
  pub from : ℕ
  pub to : ℕ
  pub nonce : ℕ
  pub reserved : List ℕ
  pub data_bytes : List ℕ
  pub signature : List ℕ
  pub factory_deps : List (List ℕ)
  pub reserved_dynamic : List ℕ

-- The constructors of `ola_lang_abi::Value` that are used.
pub data Value : Type 0 where
  u32_value : ℕ → Value
  address_value : List ℕ → Value
  fields_value : List ℕ → Value

-- `U256.0`: the four limbs, the lowest first.
unfoldable pub limbs : ℕ → List ℕ
limbs n =
    n % u64_mod
    ∷ n / u64_mod % u64_mod
    ∷ n / u64_mod / u64_mod % u64_mod
    ∷ n / u64_mod / u64_mod / u64_mod % u64_mod
    ∷ []

-- `try_into().unwrap()` to an array of four.
unfoldable pub four : List ℕ → Outcome (List ℕ)
four words = do assert (length words == 4); returns words

-- The parameters of the ABI encoding.
unfoldable pub params :
    TransactionData → List ℕ → List ℕ → List ℕ → List ℕ → List ℕ → List ℕ → List Value
unfolding limbs
params d from to data_words signature factory_deps_hashes reserved_dynamic =
    u32_value d.tx_type
    ∷ address_value from
    ∷ address_value to
    ∷ u32_value d.nonce
    ∷ fields_value (flat_map limbs d.reserved)
    ∷ fields_value data_words
    ∷ fields_value signature
    ∷ fields_value (flat_map limbs factory_deps_hashes)
    ∷ fields_value reserved_dynamic
    ∷ []

module _ (encode : List Value → List ℕ) (hash_bytecode : List ℕ → ℕ) where
  unfoldable pub abi_encode_with_custom_factory_deps : List ℕ → TransactionData → Outcome (List ℕ)
  unfolding params four
  abi_encode_with_custom_factory_deps factory_deps_hashes d = do
    from_words ← bytes_to_u64s (u256_to_h256 d.from)
    from ← four from_words
    to_words ← bytes_to_u64s (u256_to_h256 d.to)
    to ← four to_words
    data_words ← bytes_to_u64s d.data_bytes
    signature ← bytes_to_u64s d.signature
    reserved_dynamic ← bytes_to_u64s d.reserved_dynamic
    returns (
        u64s_to_bytes
          (encode (params d from to data_words signature factory_deps_hashes reserved_dynamic)))

  unfoldable pub abi_encode : TransactionData → Outcome (List ℕ)
  unfolding abi_encode_with_custom_factory_deps
  abi_encode d = abi_encode_with_custom_factory_deps (map hash_bytecode d.factory_deps) d

  unfoldable pub into_tokens : TransactionData → Outcome (List ℕ)
  unfolding abi_encode
  into_tokens d = do
    bytes ← abi_encode d
    let padding_count = 32 - length bytes % 32
    bytes_to_be_words (if ltb 0 padding_count then bytes ++ replicate padding_count 0 else bytes)

abbrev pub or_default : Option (List (List ℕ)) → List (List ℕ)
or_default none = []
or_default (some deps) = deps

-- `From<Transaction> for TransactionData`, by the kind of the transaction.
unfoldable pub from_common : ExecuteTransactionCommon → Execute → TransactionData
from_common (l2 c) execute = record {
  tx_type = tx_type_number c.transaction_type % 256;
  from = c.initiator_address;
  to = execute.contract_address;
  nonce = c.nonce;
  reserved = 0 ∷ 0 ∷ 0 ∷ 0 ∷ [];
  data_bytes = execute.calldata;
  signature = c.signature;
  factory_deps = or_default execute.factory_deps;
  reserved_dynamic = [];
}
from_common (protocol_upgrade c) execute = record {
  tx_type = tx_type_number TransactionType.protocol_upgrade_transaction % 256;
  from = c.sender;
  to = execute.contract_address;
  nonce = c.upgrade_id % u32_mod;
  reserved = 0 ∷ 0 ∷ 0 ∷ 0 ∷ [];
  data_bytes = execute.calldata;
  signature = [];
  factory_deps = or_default execute.factory_deps;
  reserved_dynamic = [];
}

unfoldable pub from_transaction : Transaction → TransactionData
unfolding from_common
from_transaction tx = from_common tx.common_data tx.execute

-- The size of a transaction in a batch (`extractors::encoded_transaction_size` of the sequencer).
unfoldable pub encoded_transaction_size :
    (List Value → List ℕ) → (List ℕ → ℕ) → Transaction → Outcome ℕ
unfolding into_tokens
encoded_transaction_size encode hash_bytecode tx = do
  tokens ← into_tokens encode hash_bytecode (from_transaction tx)
  returns (length tokens)
