-- ===== src/Request/Submit.antt =====
-- The checks of a submitted transaction (ola_core/src/api_server/tx_sender/mod.rs).
use ola_os.Base.{
  ℕ, ◌+◌, ◌<◌, ◌≤◌, ◌≡◌, ◌↔◌, Option, none, some, List, length, arith, ltb, leb, ◌&&◌, not,
  if◌then◌else◌,
}
use ola_os.Base.Words.{u32_mod, wrapping_add32}
use ola_os.Types.Tx.{L2Tx}

-- The errors of the checks; `none` is `Ok(())`.
pub data SubmitTxError : Type 0 where
  too_many_factory_dependencies : ℕ → ℕ → SubmitTxError
  nonce_is_too_low nonce_is_too_high : ℕ → ℕ → ℕ → SubmitTxError

abbrev pub max_new_factory_deps : ℕ
max_new_factory_deps = 32

-- `Execute::factory_deps_length`
unfoldable pub factory_deps_length : Option (List (List ℕ)) → ℕ
factory_deps_length none = 0
factory_deps_length (some deps) = length deps

-- The nonce that is expected comes from the database.
unfoldable pub validate_account_nonce : ℕ → ℕ → L2Tx → Option SubmitTxError
validate_account_nonce max_nonce_ahead expected_nonce tx =
    let max_nonce = wrapping_add32 expected_nonce max_nonce_ahead in
    if ltb tx.common_data.nonce expected_nonce
    then some (nonce_is_too_low expected_nonce max_nonce tx.common_data.nonce)
    else if not (leb expected_nonce tx.common_data.nonce && leb tx.common_data.nonce max_nonce)
    then some (nonce_is_too_high expected_nonce max_nonce tx.common_data.nonce)
    else none

unfoldable pub validate_tx : ℕ → ℕ → L2Tx → Option SubmitTxError
unfolding factory_deps_length validate_account_nonce
validate_tx max_nonce_ahead expected_nonce tx =
    if ltb max_new_factory_deps (factory_deps_length tx.execute.factory_deps)
    then some (
        too_many_factory_dependencies (factory_deps_length tx.execute.factory_deps)
          max_new_factory_deps)
    else validate_account_nonce max_nonce_ahead expected_nonce tx

-- Where the allowed nonces do not wrap, a transaction is valid exactly if it has at most 32 factory
-- dependencies and its nonce is the expected one or at most the allowed number ahead of it; it is
-- refused for a low or a high nonce exactly if only its nonce is below or above those.
pub validate_tx-cases :
    (max_nonce_ahead expected_nonce : ℕ) (tx : L2Tx)
    → expected_nonce + max_nonce_ahead < u32_mod
    → let deps = factory_deps_length tx.execute.factory_deps in
      let nonce = tx.common_data.nonce in
      let limit = expected_nonce + max_nonce_ahead in
      ((validate_tx max_nonce_ahead expected_nonce tx ≡ none)
        ↔ ((deps ≤ 32) × (expected_nonce ≤ nonce) × (nonce ≤ limit)))
      × ((validate_tx max_nonce_ahead expected_nonce tx
            ≡ some (nonce_is_too_low expected_nonce limit nonce))
          ↔ ((deps ≤ 32) × (nonce < expected_nonce)))
      × ((validate_tx max_nonce_ahead expected_nonce tx
            ≡ some (nonce_is_too_high expected_nonce limit nonce))
          ↔ ((deps ≤ 32) × (limit < nonce)))
unfolding validate_tx validate_account_nonce wrapping_add32
validate_tx-cases max_nonce_ahead expected_nonce tx small =
    (ground arith, ground arith, ground arith)
