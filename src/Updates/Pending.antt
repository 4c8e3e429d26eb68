-- ===== src/Updates/Pending.antt =====
-- The pending totals of a batch with its open miniblock (ola_core/src/sequencer/updates/mod.rs).
use ola_os.Base.{ℕ, ◌≡◌, refl, List, [], ◌∷◌, ◌++◌, append-nil, arith, length-append}
use ola_os.Base.Words.{wrapping_add64}
use ola_os.Types.Log.{StorageLogQuery}
use ola_os.Types.Execution.{TransactionExecutionResult, add-default}
use ola_os.Dedup.{apply, process_storage_logs, process_if_write, StorageWritesDeduplicator}
use ola_os.Updates.{
  UpdatesManager, new_miniblock, push_miniblock, extend_from_sealed_miniblock,
  pending_executed_transactions_len, pending_execution_metrics, pending_txs_encoding_size,
}

-- The transactions and the storage logs of the batch, in their order.
abbrev pub all_transactions : UpdatesManager → List TransactionExecutionResult
all_transactions u = u.l1_batch.executed_transactions ++ u.miniblock.executed_transactions

abbrev pub all_logs : UpdatesManager → List StorageLogQuery
all_logs u = u.l1_batch.block_storage_logs ++ u.miniblock.storage_logs

-- Closing a miniblock moves nothing but the border: the batch's transactions, logs, deduplicated
-- writes and pending totals stay what they were, and the new miniblock is empty.
pub push_miniblock_lem :
    (timestamp : ℕ) (u : UpdatesManager)
    → let v = push_miniblock timestamp u in
      (v.miniblock ≡ new_miniblock timestamp)
      × (all_transactions v ≡ all_transactions u)
      × (all_logs v ≡ all_logs u)
      × (v.storage_writes_deduplicator ≡ u.storage_writes_deduplicator)
      × (pending_executed_transactions_len v ≡ pending_executed_transactions_len u)
      × (pending_execution_metrics v ≡ pending_execution_metrics u)
      × (pending_txs_encoding_size v ≡ pending_txs_encoding_size u)
unfolding push_miniblock extend_from_sealed_miniblock new_miniblock
    pending_executed_transactions_len pending_execution_metrics pending_txs_encoding_size
    wrapping_add64
push_miniblock_lem timestamp u = (
  refl,
  append-nil (all_transactions u),
  append-nil (all_logs u),
  refl,
  omega (arith, length-append u.l1_batch.executed_transactions u.miniblock.executed_transactions),
  add-default u.l1_batch.block_execution_metrics u.miniblock.block_execution_metrics,
  omega arith,
)

-- Logs applied in two parts.
pub apply-append :
    (xs ys : List StorageLogQuery) (d : StorageWritesDeduplicator)
    → apply (xs ++ ys) d ≡ apply ys (apply xs d)
unfolding apply process_storage_logs
apply-append [] ys d = refl
apply-append (x ∷ xs) ys d = apply-append xs ys (process_if_write x d).0
