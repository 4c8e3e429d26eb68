-- ===== src/Request/Reading.antt =====
-- What reading a request gives (types/src/request.rs): a value, an error, or a panic.
use ola_os.Base.{ℕ, Option, none, some, Bool, true, false, Outcome, returns, panics, ◌≡◌, refl}

-- The errors of the `rlp` crate, of which one is named.
pub data DecoderError : Type 0 where
  rlp_incorrect_list_len : DecoderError
  other : ℕ → DecoderError

pub data InvalidBytecodeError : Type 0 where
  bytecode_too_long bytecode_instructions_too_long : ℕ → ℕ → InvalidBytecodeError
  bytecode_length_in_words_is_even bytecode_length_is_not_divisible_by8 : InvalidBytecodeError
  bytecode_dep_parse_program_failed bytecode_parse_instructions_failed : InvalidBytecodeError

pub data SerializationTransactionError : Type 0 where
  unknown_transaction_format from_address_is_null : SerializationTransactionError
  to_address_is_null invalid_paymaster_params too_big_nonce : SerializationTransactionError
  invalid_factory_dependencies : ℕ → InvalidBytecodeError → SerializationTransactionError
  decode_rlp_error : DecoderError → SerializationTransactionError
  access_lists_not_supported : SerializationTransactionError
  wrong_chain_id : Option ℕ → SerializationTransactionError
  oversized_data : ℕ → ℕ → SerializationTransactionError

pub data Parse {ℓ} (A : Type ℓ) : Type ℓ where
  parsed : A → Parse A
  refused : SerializationTransactionError → Parse A
  crashed : Parse A

infixl 5 ◌>>=◌ ◌>>◌
abbrev pub ◌>>=◌ {ℓ κ} : {A : Type ℓ} {B : Type κ} → Parse A → (A → Parse B) → Parse B
parsed a >>= f = f a
refused e >>= f = refused e
crashed >>= f = crashed

abbrev pub ◌>>◌ {ℓ} : {B : Type ℓ} → Parse (Unit {0}) → Parse B → Parse B
m >> k = m >>= λ _. k

abbrev pub run : {A : Type 0} → Outcome A → Parse A
run (returns a) = parsed a
run panics = crashed

abbrev pub ensure : Bool → SerializationTransactionError → Parse (Unit {0})
ensure true e = parsed tt
ensure false e = refused e

-- What the `rlp` crate decodes.
pub data Decoded (A : Type 0) : Type 0 where
  decoded : A → Decoded A
  failed : DecoderError → Decoded A

-- `?` on a decoding error.
abbrev pub try : {A : Type 0} → Decoded A → Parse A
try (decoded a) = parsed a
try (failed e) = refused (decode_rlp_error e)

-- `.ok()`
abbrev pub to_option : {A : Type 0} → Decoded A → Option A
to_option (decoded a) = some a
to_option (failed e) = none

pub >>=-eq-parsed {ℓ κ} :
    {A : Type ℓ} {B : Type κ} (m : Parse A) (f : A → Parse B) {b : B}
    → (m >>= f) ≡ parsed b
    → (a : A) × (m ≡ parsed a) × (f a ≡ parsed b)
>>=-eq-parsed (parsed a) f h = (a, refl, h)
>>=-eq-parsed (refused e) f h = cc
>>=-eq-parsed crashed f h = cc
