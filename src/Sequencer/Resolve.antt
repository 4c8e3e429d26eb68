-- ===== src/Sequencer/Resolve.antt =====
-- What becomes of a transaction after its execution (`process_one_tx` and the match after it in
-- ola_core/src/sequencer/sequencer.rs; the results of ola_core/src/sequencer/batch_executor/mod.rs).
use ola_os.Base.{ℕ, ◌*◌, Option, none, some, List, ◌++◌, Outcome, returns, panics, ◌>>=◌}
use ola_os.Base.Words.{wrapping_add64}
use ola_os.Types.Tx.{Transaction}
use ola_os.Types.Execution.{
  ExecutionMetrics, VmTxExeResult, VmPartialExecutionResult, TxExecutionStatus, add,
}
use ola_os.RevertReason.{
  TxRevertReason, not_enough_gas_provided, bootloader_out_of_gas, reason_to_string,
}
use ola_os.Dedup.{apply_and_rollback, apply_on_empty_state}
use ola_os.TxData.{Value, encoded_transaction_size}
use ola_os.Updates.{
  UpdatesManager, extend_from_executed_transaction, pending_executed_transactions_len,
  pending_execution_metrics, pending_txs_encoding_size,
}
use ola_os.Seal.{
  Float64, SealManager, SealData, SealResolution, exclude_and_seal, unexecutable,
  should_seal_l1_batch,
}

-- `TxExecutionResult`, without the wrapper around the metrics.
pub data TxExecutionResult : Type 0 where
  success :
      VmTxExeResult
      → ExecutionMetrics
      → ExecutionMetrics
      → VmPartialExecutionResult
      → TxExecutionResult
  rejected_by_vm : TxRevertReason → TxExecutionResult
  bootloader_out_of_gas_for_tx bootloader_out_of_gas_for_block_tip : TxExecutionResult

-- `TxExecutionResult::err`
unfoldable pub err : TxExecutionResult → Option TxRevertReason
err (success tx_result tx_metrics tip_metrics tip_result) = none
err (rejected_by_vm rejection_reason) = some rejection_reason
err bootloader_out_of_gas_for_tx = some bootloader_out_of_gas
err bootloader_out_of_gas_for_block_tip = some bootloader_out_of_gas

-- The match on the reason of a rejection.
unfoldable pub resolution_of_rejection : (List ℕ → List ℕ) → TxRevertReason → SealResolution
resolution_of_rejection hex_encode not_enough_gas_provided = exclude_and_seal
resolution_of_rejection hex_encode reason = unexecutable (reason_to_string hex_encode reason)

module _ (F : Float64) (sealer : SealManager F) (encode : List Value → List ℕ)
    (hash_bytecode : List ℕ → ℕ) (hex_encode : List ℕ → List ℕ) where
  -- The last arm of the match in `process_one_tx`: the writes of the transaction and of the dry
  -- run of the block's tip are counted, and the sealer decides. The dry run of the deduplicator
  -- leaves its mark on the updates.
  unfoldable pub decide :
      ℕ
      → VmTxExeResult
      → ExecutionMetrics
      → ExecutionMetrics
      → VmPartialExecutionResult
      → UpdatesManager
      → UpdatesManager × SealResolution
  decide encoding_len tx_result tx_metrics tip_metrics tip_result u =
      let logs_to_apply = tx_result.result.logs.storage_logs ++ tip_result.logs.storage_logs in
      let (d, block_writes_metrics) =
        apply_and_rollback logs_to_apply u.storage_writes_deduplicator in
      let tx_data : SealData = record {
        execution_metrics = add tx_metrics tip_metrics;
        cumulative_size = encoding_len;
        writes_metrics = apply_on_empty_state logs_to_apply;
      } in
      let block_data : SealData = record {
        execution_metrics = add tx_data.execution_metrics (pending_execution_metrics u);
        cumulative_size = wrapping_add64 tx_data.cumulative_size (pending_txs_encoding_size u);
        writes_metrics = block_writes_metrics;
      } in
      (
        record u { storage_writes_deduplicator = d },
        should_seal_l1_batch F sealer (u.batch_timestamp * 1000)
            (wrapping_add64 (pending_executed_transactions_len u) 1) block_data tx_data,
      )

  unfoldable pub seal_resolution :
      Transaction → TxExecutionResult → UpdatesManager → Outcome (UpdatesManager × SealResolution)
  unfolding decide resolution_of_rejection
  seal_resolution tx bootloader_out_of_gas_for_tx u = returns (u, exclude_and_seal)
  seal_resolution tx bootloader_out_of_gas_for_block_tip u = returns (u, exclude_and_seal)
  seal_resolution tx (rejected_by_vm reason) u =
      returns (u, resolution_of_rejection hex_encode reason)
  seal_resolution tx (success tx_result tx_metrics tip_metrics tip_result) u = do
    encoding_len ← encoded_transaction_size encode hash_bytecode tx
    returns (decide encoding_len tx_result tx_metrics tip_metrics tip_result u)

module _ (encode : List Value → List ℕ) (hash_bytecode : List ℕ → ℕ) where
  -- `updates_manager.extend_from_executed_transaction` under `let else`.
  unfoldable pub include : Transaction → TxExecutionResult → UpdatesManager → Outcome UpdatesManager
  include tx (success tx_result tx_metrics tip_metrics tip_result) u =
      extend_from_executed_transaction encode hash_bytecode tx tx_result tx_metrics u
  include tx (rejected_by_vm reason) u = panics
  include tx bootloader_out_of_gas_for_tx u = panics
  include tx bootloader_out_of_gas_for_block_tip u = panics

  -- The same for an upgrade transaction, which must have succeeded.
  unfoldable pub include_upgrade :
      Transaction → TxExecutionResult → UpdatesManager → Outcome UpdatesManager
  unfolding include
  include_upgrade tx (success tx_result tx_metrics tip_metrics tip_result) u =
      elim tx_result.status [
        | TxExecutionStatus.success ↦
            include tx (success tx_result tx_metrics tip_metrics tip_result) u
        | TxExecutionStatus.failure ↦ panics
      ]
  include_upgrade tx (rejected_by_vm reason) u = panics
  include_upgrade tx bootloader_out_of_gas_for_tx u = panics
  include_upgrade tx bootloader_out_of_gas_for_block_tip u = panics
