-- ===== src/Request/Tests.antt =====
-- Requests with a decoder that knows one list: nine words of calldata and a signature.
use ola_os.Base.{
  ℕ, ◌+◌, ◌<◌, ◌≤◌, ◌≡◌, ◌⊎◌, ◌↔◌, refl, List, [], ◌∷◌, none, some, returns, panics, length,
  replicate, arith, ◌==◌, if◌then◌else◌,
}
use ola_os.Base.Words.{wrapping_add64}
use ola_os.Types.Tx.{L2Tx, TransactionType, from_l2}
use ola_os.Convert.{
  u64s_to_bytes, bytes_to_u64s, u256_to_h256, to_be_bytes, from_be_bytes, read_be, chunks_from,
  h256_to_u64_array,
}
use ola_os.Sequencer.Resolve.{TxExecutionResult}
use ola_os.Executor.{BlockExeManager, ok}
use ola_os.Executor
use ola_os.Request.{
  Program, no_program, TransactionRequest, from_request, get_signature, get_nonce_checked, kind_of,
  validate_factory_deps, from_vector, set_input,
}
use ola_os.Request.Reading.{decoded, failed, rlp_incorrect_list_len, parsed}
use ola_os.Request.Bytes.{
  Rlp, from_bytes, parse_transaction_bytes, decode, decode_raw, decode_meta, decode_fields,
  into_signed_bytes, slice_words, paymaster_words, request_hash,
}
use ola_os.Request.Accepted.{IsRead, from_bytes-IsRead, parse_transaction_bytes-executes}
use ola_os.Request.Submit.{
  nonce_is_too_low, nonce_is_too_high, factory_deps_length, validate_tx, validate_tx-cases,
}

abbrev rlp : Rlp
rlp = record {
  item_count = λ list. decoded 11;
  at_item_count = λ list i. failed rlp_incorrect_list_len;
  u16_at = λ list i. decoded 1027;
  u64_at = λ list i. decoded 27;
  u256_at = λ list i. decoded 3;
  address_at = λ list i. decoded 5;
  bytes_at = λ list i. decoded (if i == 2 then replicate 72 0 else replicate 64 7);
  list_at = λ list i. if i == 10 then decoded [] else failed rlp_incorrect_list_len;
}

abbrev decode_program : List ℕ → Program
decode_program code = no_program

abbrev hash_bytes : List ℕ → List ℕ
hash_bytes bytes = []

abbrev bytes : List ℕ
bytes = 16 ∷ []

abbrev req : TransactionRequest
req = record {
  nonce = 3;
  from = some 5;
  to = some 5;
  input = replicate 72 0;
  v = some 27;
  r = some 3;
  s = some 3;
  raw = some bytes;
  transaction_type = some 16;
  eip712_meta = some (record {
    factory_deps = none;
    custom_signature = some (replicate 64 7);
    paymaster_params = none;
  });
  chain_id = some 1027;
}

abbrev tx : L2Tx
tx = record {
  execute = record { contract_address = 5; calldata = replicate 72 0; factory_deps = none };
  common_data = record {
    nonce = 3;
    initiator_address = 5;
    signature = replicate 64 7;
    transaction_type = TransactionType.ola_raw_transaction;
    input = none;
  };
  received_timestamp_ms = 9;
}

is_read : from_bytes rlp decode_program hash_bytes bytes 1027 ≡ parsed (req, [])
unfolding from_bytes decode decode_raw decode_meta decode_fields from_vector validate_factory_deps
    into_signed_bytes slice_words paymaster_words request_hash bytes_to_u64s u64s_to_bytes
    u256_to_h256 to_be_bytes from_be_bytes read_be chunks_from h256_to_u64_array wrapping_add64
is_read = refl

from_bytes-IsRead_example : IsRead bytes 1027 req
from_bytes-IsRead_example =
    from_bytes-IsRead rlp decode_program hash_bytes bytes 1027 req [] is_read

is_parsed : parse_transaction_bytes rlp decode_program hash_bytes 1027 9 bytes ≡ parsed (tx, [])
unfolding parse_transaction_bytes from_request get_signature get_nonce_checked kind_of
    validate_factory_deps
is_parsed = rw is_read refl

abbrev machine : BlockExeManager ℕ
machine = record {
  invoke = λ info x. (x + 1, ok (record { storage_access_logs = []; events = [] }));
  finish_batch = λ x. none;
}

parse_transaction_bytes-executes_example :
    let run_tx = Executor.tx machine (from_l2 (set_input bytes 99 tx)) 0 0 in
    ((64 ≤ length tx.common_data.signature) × (r : ℕ × TxExecutionResult) × (run_tx ≡ returns r))
    ⊎ ((length tx.common_data.signature < 64) × (run_tx ≡ panics))
parse_transaction_bytes-executes_example =
    parse_transaction_bytes-executes rlp decode_program hash_bytes machine 1027 9 bytes tx [] 99 0 0
      is_parsed (ground arith) (ground arith)

validate_tx-cases_example :
    let deps = factory_deps_length tx.execute.factory_deps in
    let nonce = tx.common_data.nonce in
    ((validate_tx 20 3 tx ≡ none) ↔ ((deps ≤ 32) × (3 ≤ nonce) × (nonce ≤ 3 + 20)))
    × ((validate_tx 20 3 tx ≡ some (nonce_is_too_low 3 (3 + 20) nonce))
        ↔ ((deps ≤ 32) × (nonce < 3)))
    × ((validate_tx 20 3 tx ≡ some (nonce_is_too_high 3 (3 + 20) nonce))
        ↔ ((deps ≤ 32) × (3 + 20 < nonce)))
validate_tx-cases_example = validate_tx-cases 20 3 tx (omega arith)
