-- ===== src/Sequencer/Rounds.antt =====
-- The rounds of a batch (`process_l1_batch` in ola_core/src/sequencer/sequencer.rs).
use ola_os.Base.{
  ℕ, zero, suc, ◌%◌, Bool, true, false, none, some, Option, List, panics, assert, ◌==◌,
}
use ola_os.Base.Words.{u32_mod}
use ola_os.Types.Tx.{Transaction, ProtocolUpgradeTx, from_upgrade}
use ola_os.Types.Tx
use ola_os.TxData.{Value}
use ola_os.Updates.{UpdatesManager, pending_executed_transactions_len}
use ola_os.Seal.{
  Float64, SealManager, SealResolution, no_seal, include_and_seal, exclude_and_seal, unexecutable,
  should_seal, should_seal_l1_batch_unconditionally, should_seal_miniblock,
}
use ola_os.Async.{waiting, Async, ◌>>=◌, ◌>>◌, pure, lift}
use ola_os.Sequencer.Io.{SequencerIo, act, check_if_cancelled, close_if}
use ola_os.Sequencer.Resolve.{TxExecutionResult, seal_resolution, include, include_upgrade}

module _ (F : Float64) (sealer : SealManager F) (encode : List Value → List ℕ)
    (hash_bytecode : List ℕ → ℕ) (hex_encode : List ℕ → List ℕ) {W B : Type 0}
    (io : SequencerIo W B) where
  unfoldable pub process_one_tx :
      UpdatesManager → Transaction → Async W (UpdatesManager × SealResolution × TxExecutionResult)
  unfolding seal_resolution
  process_one_tx u tx = do
    exec_result ← act (io.execute_tx tx (pending_executed_transactions_len u % u32_mod))
    (v, resolution) ←
        lift (seal_resolution F sealer encode hash_bytecode hex_encode tx exec_result u)
    pure (v, resolution, exec_result)

  -- The match on the resolution.
  unfoldable pub conclude :
      Transaction → SealResolution → TxExecutionResult → UpdatesManager → Async W UpdatesManager
  unfolding include
  conclude tx no_seal exec_result u = lift (include encode hash_bytecode tx exec_result u)
  conclude tx include_and_seal exec_result u = lift (include encode hash_bytecode tx exec_result u)
  conclude tx exclude_and_seal exec_result u = act (io.rollback tx) >> pure u
  conclude tx (unexecutable reason) exec_result u = act (io.reject tx reason) >> pure u

  -- A transaction is executed and included, put back or rejected, and whether the batch is sealed.
  unfoldable pub process_next_tx : Transaction → UpdatesManager → Async W (UpdatesManager × Bool)
  unfolding process_one_tx conclude
  process_next_tx tx u = do
    tx_hash ← lift (Tx.hash tx)
    (v, resolution, exec_result) ← process_one_tx u tx
    v' ← conclude tx resolution exec_result v
    pure (v', should_seal resolution)

  -- The next round follows unless the batch is sealed.
  abbrev pub unless_sealed :
      (UpdatesManager → Async W UpdatesManager) → UpdatesManager × Bool → Async W UpdatesManager
  unless_sealed rest (v, true) = pure v
  unless_sealed rest (v, false) = rest v

  -- The end of a round: the transaction that the io has, if any.
  unfoldable pub take_next :
      (UpdatesManager → Async W UpdatesManager) → UpdatesManager → Async W UpdatesManager
  unfolding process_next_tx
  take_next rest u = do
    next ← act io.wait_for_next_tx
    elim next [ none ↦ rest u | some tx ↦ process_next_tx tx u >>= unless_sealed rest ]

  -- A round of the loop before that, once it is known whether the batch is sealed.
  unfoldable pub go_on :
      Bool → ℕ → (UpdatesManager → Async W UpdatesManager) → UpdatesManager → Async W UpdatesManager
  unfolding take_next
  go_on true n rest u = pure u
  go_on false n rest u = do
    later ← act io.now
    v ← close_if io (should_seal_miniblock F sealer later u) n u
    take_next rest v

  -- The loop of `process_l1_batch`, on the fuel of its rounds.
  unfoldable pub process_rounds : ℕ → UpdatesManager → Async W UpdatesManager
  unfolding check_if_cancelled go_on
  process_rounds zero u = λ w. waiting
  process_rounds (suc n) u = do
    check_if_cancelled io
    now ← act io.now
    go_on (should_seal_l1_batch_unconditionally F sealer now u) (suc n) (process_rounds n) u

  -- The match on the resolution of an upgrade transaction.
  unfoldable pub conclude_upgrade :
      Transaction → SealResolution → TxExecutionResult → UpdatesManager → Async W UpdatesManager
  unfolding include_upgrade
  conclude_upgrade tx no_seal exec_result u =
      lift (include_upgrade encode hash_bytecode tx exec_result u)
  conclude_upgrade tx include_and_seal exec_result u =
      lift (include_upgrade encode hash_bytecode tx exec_result u)
  conclude_upgrade tx exclude_and_seal exec_result u = lift panics
  conclude_upgrade tx (unexecutable reason) exec_result u = lift panics

  unfoldable pub process_upgrade_tx : ProtocolUpgradeTx → UpdatesManager → Async W UpdatesManager
  unfolding process_one_tx conclude_upgrade
  process_upgrade_tx protocol_upgrade_tx u = do
    lift (assert (pending_executed_transactions_len u == 0))
    let tx = from_upgrade protocol_upgrade_tx
    (v, resolution, exec_result) ← process_one_tx u tx
    conclude_upgrade tx resolution exec_result v

  -- An upgrade transaction comes first.
  unfoldable pub process_l1_batch :
      ℕ → Option ProtocolUpgradeTx → UpdatesManager → Async W UpdatesManager
  unfolding process_upgrade_tx process_rounds
  process_l1_batch n none u = process_rounds n u
  process_l1_batch n (some protocol_upgrade_tx) u = do
    v ← process_upgrade_tx protocol_upgrade_tx u
    process_rounds n v
