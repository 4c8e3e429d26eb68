-- ===== src/SealLogic/Batch.antt =====
-- What sealing a batch writes to the database (ola_core/src/sequencer/io/seal_logic.rs). The hashed
-- key of a slot, the parallel sort, the previous batch and the database's answer about written
-- slots are parameters. The database writes are one transaction; a check stands after its commit.
use ola_os.Base.{
  ℕ, ◌%◌, Bool, true, not, Option, some, List, [], ◌∷◌, map, Outcome, returns, assert, ◌>>=◌, ◌>>◌,
  ◌==◌, ltb, length, is_some,
}
use ola_os.Base.Words.{wrapping_add64}
use ola_os.Types.Log.{LogQuery, StorageLogQuery, StorageKey, key_of}
use ola_os.Types.Execution.{VmExecutionLogs, TransactionExecutionResult}
use ola_os.SortStorage.{ExtendedQuery, sort_storage_access_queries}
use ola_os.Updates.{
  UpdatesManager, BaseSystemContractsHashes, extend_from_fictive_transaction,
  seal_miniblock_command,
}
use ola_os.SealLogic.{DbWrite, filter, l1_l2_tx_count, seal_inner}

-- `VmBlockResult`, as far as sealing reads it.
pub record VmBlockResult : Type 0 where
  pub revert_reason : Option (List ℕ)
  pub storage_log_queries : List StorageLogQuery
  pub block_tip_logs : VmExecutionLogs

pub record BlockContext : Type 0 where
  pub block_number : ℕ
  pub block_timestamp : ℕ
  pub operator_address : ℕ

-- Without the fields that sealing leaves empty.
pub record L1BatchHeader : Type 0 where
  pub number : ℕ
  pub is_finished : Bool
  pub timestamp : ℕ
  pub fee_account_address : ℕ
  pub l1_tx_count : ℕ
  pub l2_tx_count : ℕ
  pub base_system_contracts_hashes : BaseSystemContractsHashes
  pub protocol_version : Option ℕ

pub data BatchWrite : Type 0 where
  seal_miniblock : List DbWrite → BatchWrite
  insert_l1_batch : L1BatchHeader → List (ℕ × ℕ) → BatchWrite
  mark_miniblocks_as_executed_in_l1_batch : ℕ → BatchWrite
  mark_txs_as_executed_in_l1_batch : ℕ → List TransactionExecutionResult → BatchWrite
  insert_protective_reads : ℕ → List LogQuery → BatchWrite
  set_missing_initial_writes_indices : BatchWrite
  insert_initial_writes : ℕ → List StorageKey → BatchWrite

-- What is committed, and the check after it.
pub record Sealing : Type 0 where
  pub writes : List BatchWrite
  pub check : Outcome (Unit {0})

-- `initial_bootloader_memory`
abbrev pub initial_bootloader_memory : List (ℕ × ℕ)
initial_bootloader_memory = (0, 0) ∷ []

abbrev pub is_write : LogQuery → Bool
is_write q = q.rw_flag

abbrev pub is_read : LogQuery → Bool
is_read q = not q.rw_flag

unfoldable pub l1_batch_header : ℕ → BlockContext → UpdatesManager → L1BatchHeader
unfolding l1_l2_tx_count
l1_batch_header l1_batch_number context u =
    let (l1_tx_count, l2_tx_count) = l1_l2_tx_count u.l1_batch.executed_transactions in
    record {
      number = l1_batch_number;
      is_finished = true;
      timestamp = context.block_timestamp;
      fee_account_address = context.operator_address;
      l1_tx_count = l1_tx_count % 65536;
      l2_tx_count = l2_tx_count % 65536;
      base_system_contracts_hashes = u.base_system_contract_hashes;
      protocol_version = some u.protocol_version;
    }

module _ (hash_bytes : List ℕ → ℕ) (hashed_key : StorageKey → ℕ)
    (par_sort : List ExtendedQuery → List ExtendedQuery)
    (filter_written_slots : List ℕ → ℕ → Bool) where
  -- The keys of the writes whose slots the database does not know.
  unfoldable pub initial_keys : List LogQuery → List StorageKey
  unfolding key_of
  initial_keys writes =
      let written = filter_written_slots (map (λ log. hashed_key (key_of log)) writes) in
      filter (λ key. not (written (hashed_key key))) (map key_of writes)

  unfoldable pub batch_writes :
      ℕ → BlockContext → UpdatesManager → List DbWrite → List LogQuery → List BatchWrite
  unfolding l1_batch_header initial_keys
  batch_writes l1_batch_number context u miniblock deduped_log_queries =
      seal_miniblock miniblock
      ∷ insert_l1_batch (l1_batch_header l1_batch_number context u) initial_bootloader_memory
      ∷ mark_miniblocks_as_executed_in_l1_batch l1_batch_number
      ∷ mark_txs_as_executed_in_l1_batch l1_batch_number u.l1_batch.executed_transactions
      ∷ insert_protective_reads l1_batch_number (filter is_read deduped_log_queries)
      ∷ set_missing_initial_writes_indices
      ∷ insert_initial_writes l1_batch_number (initial_keys (filter is_write deduped_log_queries))
      ∷ []

  -- The in-flight deduplication counts as many writes as the one at the end.
  unfoldable pub check_counts : UpdatesManager → List LogQuery → Outcome (Unit {0})
  check_counts u deduped_log_queries =
      let m = u.storage_writes_deduplicator.metrics in
      assert (
        length (filter is_write deduped_log_queries)
        == wrapping_add64 m.initial_storage_writes m.repeated_storage_writes)

  -- `UpdatesManager::seal_l1_batch`, with the timestamp of the previous batch.
  unfoldable pub seal_l1_batch :
      ℕ → UpdatesManager → ℕ → ℕ → VmBlockResult → BlockContext → Outcome Sealing
  unfolding batch_writes check_counts
  seal_l1_batch prev_timestamp updates current_miniblock_number current_l1_batch_number block_result
        context =
      do
        assert (not (is_some block_result.revert_reason))
        let u = extend_from_fictive_transaction block_result.block_tip_logs updates
        miniblock ←
            seal_inner hash_bytes
              (seal_miniblock_command current_l1_batch_number current_miniblock_number u) true
        sorted ←
            sort_storage_access_queries par_sort
              (map (λ log. log.log_query) block_result.storage_log_queries)
        assert (ltb prev_timestamp context.block_timestamp)
        returns (record {
          writes = batch_writes current_l1_batch_number context u miniblock sorted.1;
          check = check_counts u sorted.1;
        })
