-- ===== src/Sequencer/Run.antt =====
-- Restoring a batch that was not sealed, and the sequence of batches (`restore_state` and
-- `run_inner` in ola_core/src/sequencer/sequencer.rs).
use ola_os.Base.{
  ℕ, zero, suc, ◌%◌, Bool, true, false, not, Option, none, some, List, [], ◌∷◌, assert, is_empty,
  ◌==◌,
}
use ola_os.Base.Words.{u32_mod, wrapping_add32}
use ola_os.Types.Tx.{Transaction, ProtocolUpgradeTx}
use ola_os.Types.Tx
use ola_os.TxData.{Value}
use ola_os.Updates.{UpdatesManager, new, push_miniblock, pending_executed_transactions_len}
use ola_os.Seal.{Float64, SealManager}
use ola_os.Async.{waiting, Async, ◌>>=◌, ◌>>◌, pure, lift}
use ola_os.Sequencer.Io.{
  SequencerIo, L1BatchParams, MiniblockReexecuteData, PendingBatchData, act, check_if_cancelled,
  wait_for_new_batch_params, wait_for_new_miniblock_params, close_if,
}
use ola_os.Sequencer.Resolve.{include}
use ola_os.Sequencer.Rounds.{process_l1_batch}

-- Nothing returns from the main loop.
pub data Infallible : Type 0 where

-- `UpdatesManager::new` for the parameters of a batch.
unfoldable pub new_updates : L1BatchParams → UpdatesManager
new_updates params =
    new params.block_timestamp params.base_system_contracts_hashes params.protocol_version

module _ (encode : List Value → List ℕ) (hash_bytecode : List ℕ → ℕ) {W B : Type 0}
    (io : SequencerIo W B) where
  -- The inner loop of `restore_state`, from an index in the batch.
  unfoldable pub reexecute_txs :
      List Transaction → ℕ → UpdatesManager → Async W (UpdatesManager × ℕ)
  reexecute_txs [] index u = pure (u, index)
  reexecute_txs (tx ∷ txs) index u = do
    result ← act (io.execute_tx tx index)
    tx_hash ← lift (Tx.hash tx)
    v ← lift (include encode hash_bytecode tx result u)
    reexecute_txs txs (wrapping_add32 index 1) v

  -- The miniblocks after the first one.
  unfoldable pub reexecute_rest :
      List MiniblockReexecuteData → ℕ → UpdatesManager → Async W UpdatesManager
  unfolding reexecute_txs
  reexecute_rest [] index u = pure u
  reexecute_rest (miniblock ∷ miniblocks) index u = do
    (v, next_index) ← reexecute_txs miniblock.txs index (push_miniblock miniblock.timestamp u)
    reexecute_rest miniblocks next_index v

  unfoldable pub restore_state :
      ℕ → List MiniblockReexecuteData → UpdatesManager → Async W UpdatesManager
  unfolding reexecute_rest wait_for_new_miniblock_params
  restore_state n [] u = pure u
  restore_state n (miniblock ∷ miniblocks) u = do
    (v, index) ← reexecute_txs miniblock.txs 0 u
    v' ← reexecute_rest miniblocks index v
    new_timestamp ← wait_for_new_miniblock_params io n v'.miniblock.timestamp
    pure (push_miniblock new_timestamp v')

  -- A batch that has an open miniblock gets a fictive one after it.
  unfoldable pub close_last_miniblock : ℕ → UpdatesManager → Async W UpdatesManager
  close_last_miniblock n u = close_if io (not (is_empty u.miniblock.executed_transactions)) n u

  -- What is done with a batch after its rounds.
  unfoldable pub finish_current_batch : ℕ → L1BatchParams → UpdatesManager → Async W UpdatesManager
  unfolding close_last_miniblock
  finish_current_batch n params u = do
    v ← close_last_miniblock n u
    block_result ← act (io.finish_batch (pending_executed_transactions_len v % u32_mod))
    act (io.put_witness block_result)
    act (io.seal_l1_batch block_result v params)
    pure v

  unfoldable pub load_upgrade : Bool → L1BatchParams → Async W (Option ProtocolUpgradeTx)
  load_upgrade version_changed params = elim version_changed [
    | true ↦ act (io.load_upgrade_tx params.protocol_version)
    | false ↦ pure none
  ]

  -- The batch to start with and its miniblocks.
  unfoldable pub initial_batch : ℕ → Async W PendingBatchData
  unfolding wait_for_new_batch_params
  initial_batch n = do
    pending ← act io.load_pending_batch
    elim pending [
      | some batch ↦ lift (assert (not (is_empty batch.pending_miniblocks))) >> pure batch
      | none ↦ do
        params ← wait_for_new_batch_params io n
        pure (record { params = params; pending_miniblocks = [] })
    ]

  module _ (F : Float64) (sealer : SealManager F) (hex_encode : List ℕ → List ℕ) where
    -- The loop over batches, with one fuel for it and for the loops inside.
    unfoldable pub run_batches :
        ℕ → L1BatchParams → Option ProtocolUpgradeTx → UpdatesManager → Async W Infallible
    unfolding check_if_cancelled finish_current_batch new_updates load_upgrade process_l1_batch
    run_batches zero params protocol_upgrade_tx u = λ w. waiting
    run_batches (suc n) params protocol_upgrade_tx u = do
      check_if_cancelled io
      v ← process_l1_batch F sealer encode hash_bytecode hex_encode io (suc n) protocol_upgrade_tx u
      v' ← finish_current_batch (suc n) params v
      next_params ← wait_for_new_batch_params io (suc n)
      act (io.init_batch next_params)
      next_upgrade ←
          load_upgrade (not (next_params.protocol_version == v'.protocol_version)) next_params
      run_batches n next_params next_upgrade (new_updates next_params)

    unfoldable pub run_inner : ℕ → Async W Infallible
    unfolding initial_batch restore_state run_batches new_updates
    run_inner n = do
      batch ← initial_batch n
      previous_batch_protocol_version ← act io.load_previous_batch_version_id
      act (io.init_batch batch.params)
      u ← restore_state n batch.pending_miniblocks (new_updates batch.params)
      run_batches n batch.params none u
