-- ===== src/Request.antt =====
-- Requests that become transactions (types/src/request.rs, utils/src/bytecode.rs). The decoder of
-- the `rlp` crate, the hash, the decoder of programs and the clock are parameters; U256 numbers and
-- addresses are numbers, byte strings are lists.
pub mod Reading
pub mod Bytes
pub mod Inversion
pub mod Accepted
pub mod Submit
mod Tests
use ola_os.Base.{
  ℕ, suc, ◌+◌, ◌-◌, ◌/◌, ◌%◌, Bool, true, false, not, ◌&&◌, ◌||◌, Option, none, some, List, [], ◌∷◌,
  ◌++◌, Outcome, returns, panics, expect, assert, length, take, drop, ltb, leb, ◌==◌, is_empty,
  replicate, if◌then◌else◌,
}
use ola_os.Base.Words.{u64_mod, u32_mod}
use ola_os.Convert.{bytes_to_u64s, h256_to_u64_array, u64s_to_bytes, u256_to_h256, from_be_bytes}
use ola_os.Types.Tx.{L2Tx, TransactionType}
use ola_os.Request.Reading.{
  DecoderError, rlp_incorrect_list_len, InvalidBytecodeError, bytecode_too_long,
  bytecode_instructions_too_long, bytecode_dep_parse_program_failed,
  bytecode_parse_instructions_failed, SerializationTransactionError, unknown_transaction_format,
  from_address_is_null, to_address_is_null, invalid_paymaster_params, too_big_nonce,
  invalid_factory_dependencies, decode_rlp_error, access_lists_not_supported, wrong_chain_id, Parse,
  parsed, refused, crashed, ◌>>=◌, ◌>>◌, run, ensure, Decoded, decoded, failed, try, to_option,
}

pub record PaymasterParams : Type 0 where
  pub paymaster : ℕ
  pub paymaster_input : List ℕ

pub record Eip712Meta : Type 0 where
  pub factory_deps : Option (List (List ℕ))
  pub custom_signature : Option (List ℕ)
  pub paymaster_params : Option PaymasterParams

pub record TransactionRequest : Type 0 where
  pub nonce : ℕ
  pub from : Option ℕ
  pub to : Option ℕ
  pub input : List ℕ
  pub v : Option ℕ
  pub r : Option ℕ
  pub s : Option ℕ
  pub raw : Option (List ℕ)
  pub transaction_type : Option ℕ
  pub eip712_meta : Option Eip712Meta
  pub chain_id : Option ℕ

-- What decoding a program finds: nothing, no instructions, or their number.
pub data Program : Type 0 where
  no_program no_instructions : Program
  instructions : ℕ → Program

abbrev pub max_bytecode_length_bytes : ℕ
max_bytecode_length_bytes = 33554432

abbrev pub max_bytecode_length_in_u64 : ℕ
max_bytecode_length_in_u64 = 4194304

-- The checks of `validate_bytecode` on the decoded program.
abbrev pub program_error : Program → Option InvalidBytecodeError
program_error no_program = some bytecode_dep_parse_program_failed
program_error no_instructions = some bytecode_parse_instructions_failed
program_error (instructions n) =
    if ltb max_bytecode_length_in_u64 n
    then some (bytecode_instructions_too_long n max_bytecode_length_in_u64)
    else none

unfoldable pub validate_bytecode : (List ℕ → Program) → List ℕ → Option InvalidBytecodeError
validate_bytecode decode code =
    if ltb max_bytecode_length_bytes (length code)
    then some (bytecode_too_long (length code) max_bytecode_length_bytes)
    else program_error (decode code)

-- `validate_factory_deps`, from an index.
unfoldable pub validate_from :
    (List ℕ → Program) → ℕ → List (List ℕ) → Option SerializationTransactionError
unfolding validate_bytecode
validate_from decode i [] = none
validate_from decode i (dep ∷ deps) =
    let rest = validate_from decode (suc i) deps in
    elim (validate_bytecode decode dep) [
      | some e ↦ some (invalid_factory_dependencies i e)
      | none ↦ rest
    ]

abbrev pub refuse_if : Option SerializationTransactionError → Parse (Unit {0})
refuse_if (some e) = refused e
refuse_if none = parsed tt

unfoldable pub validate_factory_deps :
    (List ℕ → Program) → Option (List (List ℕ)) → Parse (Unit {0})
unfolding validate_from
validate_factory_deps decode none = parsed tt
validate_factory_deps decode (some deps) = refuse_if (validate_from decode 0 deps)

-- `PaymasterParams::from_vector`
unfoldable pub from_vector : List (List ℕ) → Parse (Option PaymasterParams)
from_vector [] = parsed none
from_vector (paymaster ∷ input ∷ []) =
    if length paymaster == 32
    then parsed (some (record { paymaster = from_be_bytes paymaster; paymaster_input = input }))
    else refused invalid_paymaster_params
from_vector _ = refused invalid_paymaster_params

-- `eip712_meta.and_then(..)`
abbrev pub custom_signature_of : Option Eip712Meta → Option (List ℕ)
custom_signature_of none = none
custom_signature_of (some meta) = meta.custom_signature

abbrev pub zero_signature : List ℕ
zero_signature = replicate 32 0

-- `TransactionRequest::get_signature`, which has no error.
unfoldable pub get_signature : TransactionRequest → List ℕ
get_signature req = elim (custom_signature_of req.eip712_meta) [
  | none ↦ zero_signature
  | some custom_sig ↦ if is_empty custom_sig then zero_signature else custom_sig
]

unfoldable pub get_nonce_checked : TransactionRequest → Parse ℕ
get_nonce_checked req = if ltb req.nonce u32_mod then parsed req.nonce else refused too_big_nonce

abbrev pub paymaster_of : Option Eip712Meta → Option PaymasterParams
paymaster_of none = none
paymaster_of (some meta) = meta.paymaster_params

abbrev pub factory_deps_of : Option Eip712Meta → Option (List (List ℕ))
factory_deps_of none = none
factory_deps_of (some meta) = meta.factory_deps

-- The kind of a transaction by the low byte of its number.
unfoldable pub kind_of : Option ℕ → TransactionType
kind_of none = TransactionType.ola_raw_transaction
kind_of (some t) =
    if t % 256 == 113
    then TransactionType.eip712_transaction
    else if t % 256 == 2
    then TransactionType.eip1559_transaction
    else TransactionType.ola_raw_transaction

abbrev pub or_zero : Option ℕ → ℕ
or_zero none = 0
or_zero (some n) = n

abbrev pub or_error : {A : Type 0} → Option A → SerializationTransactionError → Parse A
or_error none e = refused e
or_error (some a) e = parsed a

-- `L2Tx::from_request`, at a time in milliseconds. Its check of the encoded size checks nothing.
unfoldable pub from_request : (List ℕ → Program) → ℕ → TransactionRequest → Parse L2Tx
unfolding get_signature get_nonce_checked validate_factory_deps kind_of
from_request decode now req = do
  nonce ← get_nonce_checked req
  validate_factory_deps decode (factory_deps_of req.eip712_meta)
  contract_address ← or_error req.to to_address_is_null
  parsed (record {
    execute = record {
      contract_address = contract_address;
      calldata = req.input;
      factory_deps = factory_deps_of req.eip712_meta;
    };
    common_data = record {
      nonce = nonce;
      initiator_address = or_zero req.from;
      signature = get_signature req;
      transaction_type = kind_of req.transaction_type;
      input = none;
    };
    received_timestamp_ms = now;
  })

-- `L2Tx::set_input`
unfoldable pub set_input : List ℕ → ℕ → L2Tx → L2Tx
set_input bytes hash tx = record {
  execute = tx.execute;
  received_timestamp_ms = tx.received_timestamp_ms;
  common_data = record {
    nonce = tx.common_data.nonce;
    initiator_address = tx.common_data.initiator_address;
    signature = tx.common_data.signature;
    transaction_type = tx.common_data.transaction_type;
    input = some (record { hash = hash; bytes = bytes });
  };
}
