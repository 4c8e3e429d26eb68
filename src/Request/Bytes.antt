-- ===== src/Request/Bytes.antt =====
-- Requests from their bytes (types/src/request.rs).
use ola_os.Base.{
  ℕ, suc, ◌+◌, ◌-◌, ◌/◌, ◌%◌, Bool, true, false, not, ◌&&◌, ◌||◌, Option, none, some, List, [], ◌∷◌,
  ◌++◌, expect, assert, length, take, drop, ltb, leb, ◌==◌, is_some, zero, if◌then◌else◌,
}
use ola_os.Base.Words.{u64_mod, wrapping_add64}
use ola_os.Convert.{bytes_to_u64s, h256_to_u64_array, u64s_to_bytes, u256_to_h256}
use ola_os.Types.Tx.{L2Tx}
use ola_os.Request.{
  PaymasterParams, Eip712Meta, TransactionRequest, Program, from_vector, get_signature,
  factory_deps_of, validate_factory_deps, or_error, from_request,
}
use ola_os.Request.Reading.{
  rlp_incorrect_list_len, unknown_transaction_format, from_address_is_null, decode_rlp_error,
  access_lists_not_supported, wrong_chain_id, Parse, parsed, refused, crashed, ◌>>=◌, ◌>>◌, run,
  ensure, Decoded, decoded, failed, try, to_option,
}

-- What is used of the `rlp` crate on the bytes of a list: the number of its items, of those of the
-- list at an index, and the values at an index, by their types.
pub record Rlp : Type 0 where
  pub item_count : List ℕ → Decoded ℕ
  pub at_item_count : List ℕ → ℕ → Decoded (Decoded ℕ)
  pub u16_at : List ℕ → ℕ → Decoded ℕ
  pub u64_at : List ℕ → ℕ → Decoded ℕ
  pub u256_at : List ℕ → ℕ → Decoded ℕ
  pub address_at : List ℕ → ℕ → Decoded ℕ
  pub bytes_at : List ℕ → ℕ → Decoded (List ℕ)
  pub list_at : List ℕ → ℕ → Decoded (List (List ℕ))

abbrev pub or_else : {A : Type 0} → Option A → A → A
or_else none d = d
or_else (some a) d = a

abbrev pub eq_option : Option ℕ → ℕ → Bool
eq_option none n = false
eq_option (some m) n = m == n

-- `v[from..to]`
unfoldable pub slice_words : ℕ → ℕ → List ℕ → Parse (List ℕ)
slice_words from to v =
    if leb from to && leb to (length v) then parsed (take (to - from) (drop from v)) else crashed

abbrev pub nth : ℕ → List ℕ → Option ℕ
nth n [] = none
nth zero (x ∷ xs) = some x
nth (suc n) (x ∷ xs) = nth n xs

-- A paymaster's words: its address, the number of words of its input, and those.
unfoldable pub paymaster_words : Option PaymasterParams → Parse (List ℕ)
paymaster_words none = parsed []
paymaster_words (some p) = do
  input ← run (bytes_to_u64s p.paymaster_input)
  parsed (
      h256_to_u64_array (u256_to_h256 p.paymaster)
      ++ length p.paymaster_input / 8 % u64_mod ∷ input)

abbrev pub input_is_whole : Option PaymasterParams → Bool
input_is_whole none = true
input_is_whole (some p) = length p.paymaster_input % 8 == 0

unfoldable pub into_signed_bytes : TransactionRequest → Parse (List ℕ)
unfolding slice_words paymaster_words
into_signed_bytes req = do
  meta ← run (expect req.eip712_meta)
  run (assert (length req.input % 8 == 0))
  run (assert (input_is_whole meta.paymaster_params))
  chain_id ← run (expect req.chain_id)
  let transaction_type = or_else req.transaction_type 16
  run (assert (ltb req.nonce u64_mod))
  from ← run (expect req.from)
  input ← run (bytes_to_u64s req.input)
  let biz_calldata_len = or_else (nth 8 input) 0
  biz_input ← slice_words 8 (wrapping_add64 (wrapping_add64 8 biz_calldata_len) 1) input
  biz_addr ← slice_words 4 8 input
  paymaster ← paymaster_words meta.paymaster_params
  parsed (
      u64s_to_bytes (
        (chain_id ∷ transaction_type ∷ req.nonce ∷ [])
        ++ h256_to_u64_array (u256_to_h256 from)
        ++ biz_addr
        ++ biz_input
        ++ paymaster))

module _ (rlp : Rlp) where
  -- The access list of an EIP-1559 transaction must be empty.
  unfoldable pub check_access_list : List ℕ → Parse (Unit {0})
  check_access_list list = elim (rlp.at_item_count list 8) [
    | failed e ↦ parsed tt
    | decoded counted ↦ do n ← try counted; ensure (n == 0) access_lists_not_supported
  ]

  -- `decode_eip1559_fields` under the fields `v`, `r` and `s` at an index, and the others.
  unfoldable pub decode_fields :
      List ℕ
      → ℕ
      → ℕ
      → Option ℕ
      → ℕ
      → Option (List ℕ)
      → Parse (Option Eip712Meta × Option ℕ)
      → Parse TransactionRequest
  decode_fields list offset signature_at chain_id transaction_type raw rest = do
    v ← try (rlp.u64_at list signature_at)
    r ← try (rlp.u256_at list (signature_at + 1))
    s ← try (rlp.u256_at list (signature_at + 2))
    (meta, from) ← rest
    nonce ← try (rlp.u256_at list offset)
    input ← try (rlp.bytes_at list (offset + 2))
    parsed (record {
      nonce = nonce;
      from = from;
      to = to_option (rlp.address_at list (offset + 1));
      input = input;
      v = some v;
      r = some r;
      s = some s;
      raw = raw;
      transaction_type = some transaction_type;
      eip712_meta = meta;
      chain_id = chain_id;
    })

  unfoldable pub decode_1559 : List ℕ → ℕ → Parse TransactionRequest
  unfolding check_access_list decode_fields
  decode_1559 list chain_id = do
    n ← try (rlp.item_count list)
    ensure (n == 12) (decode_rlp_error rlp_incorrect_list_len)
    check_access_list list
    let tx_chain_id = to_option (rlp.u16_at list 0)
    ensure (eq_option tx_chain_id chain_id) (wrong_chain_id tx_chain_id)
    decode_fields list 1 9 tx_chain_id 2 (some list) (parsed (none, none))

  -- The metadata and the sender of a raw or an EIP-712 transaction.
  unfoldable pub decode_meta : List ℕ → Parse (Option Eip712Meta × Option ℕ)
  decode_meta list = do
    params ← elim (rlp.list_at list 10) [
      | decoded values ↦ from_vector values
      | failed e ↦ parsed none
    ]
    from ← try (rlp.address_at list 7)
    parsed (
      some (record {
        factory_deps = to_option (rlp.list_at list 8);
        custom_signature = to_option (rlp.bytes_at list 9);
        paymaster_params = params;
      }),
      some from,
    )

  unfoldable pub decode_raw : List ℕ → ℕ → Parse TransactionRequest
  unfolding decode_fields decode_meta
  decode_raw list chain_id = do
    n ← try (rlp.item_count list)
    ensure (n == 11) (decode_rlp_error rlp_incorrect_list_len)
    let tx_chain_id = to_option (rlp.u16_at list 6)
    ensure (eq_option tx_chain_id chain_id || not (is_some tx_chain_id))
        (wrong_chain_id tx_chain_id)
    decode_fields list 0 3 tx_chain_id 16 none (decode_meta list)

  -- The match on the first byte.
  unfoldable pub decode : List ℕ → ℕ → Parse TransactionRequest
  unfolding decode_1559 decode_raw
  decode [] chain_id = refused unknown_transaction_format
  decode (b ∷ list) chain_id =
      if b == 2
      then decode_1559 list chain_id
      else if b == 113 || b == 16
      then decode_raw list chain_id
      else refused unknown_transaction_format

  module _ (decode_program : List ℕ → Program) (hash_bytes : List ℕ → List ℕ) where
    abbrev pub is_signed_kind : Option ℕ → Bool
    is_signed_kind none = false
    is_signed_kind (some t) = t == 113 || t == 16

    -- The hash of a transaction: of the signed message's hash and the signature's, or of the bytes.
    unfoldable pub request_hash : List ℕ → List ℕ → TransactionRequest → List ℕ
    request_hash bytes message req =
        if is_signed_kind req.transaction_type
        then hash_bytes (hash_bytes message ++ hash_bytes (get_signature req))
        else hash_bytes bytes

    unfoldable pub from_bytes : List ℕ → ℕ → Parse (TransactionRequest × List ℕ)
    unfolding decode into_signed_bytes request_hash
    from_bytes bytes chain_id = do
      req ← decode bytes chain_id
      validate_factory_deps decode_program (factory_deps_of req.eip712_meta)
      let tx = record req { raw = some bytes }
      message ← into_signed_bytes tx
      from ← or_error tx.from from_address_is_null
      parsed (tx, request_hash bytes message tx)

    -- `RpcState::parse_transaction_bytes` (ola_core/src/api_server/web3/state.rs), at a time.
    unfoldable pub parse_transaction_bytes : ℕ → ℕ → List ℕ → Parse (L2Tx × List ℕ)
    unfolding from_bytes
    parse_transaction_bytes l2_chain_id now bytes = do
      (tx_request, hash) ← from_bytes bytes l2_chain_id
      tx ← from_request decode_program now tx_request
      parsed (tx, hash)
