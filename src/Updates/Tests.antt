-- ===== src/Updates/Tests.antt =====
-- A batch of one transaction and a fictive one, in two miniblocks.
use ola_os.Base.{
  ℕ, ◌≡◌, refl, List, [], ◌∷◌, none, some, true, false, returns, All, map, length, drop, arith,
  replicate,
}
use ola_os.Base.Map.{contains}
use ola_os.Types.Log.{StorageKey, storage_key_ord, StorageLogQuery, StorageLogQueryType}
use ola_os.Types.Tx.{Transaction, TransactionType, l2, from_l2}
use ola_os.Types.Tx
use ola_os.Types.Execution.{VmTxExeResult, VmExecutionLogs, TxExecutionStatus, default}
use ola_os.Dedup.Final.{first_read, last_value, differs}
use ola_os.TxData.{Value, from_transaction, from_common}
use ola_os.Updates.{UpdatesManager, BaseSystemContractsHashes, new, seal_miniblock_command}
use ola_os.Updates.Runs.{
  Update, executed, fictive, pushed, IsSound, Gathers, run, run-Gathers, logs_of, transactions_of,
  transaction_of,
}
use ola_os.Updates.Sealed.{new_batch_sealed}

abbrev encode_nothing : List Value → List ℕ
encode_nothing vs = []

abbrev hash_plainly : List ℕ → ℕ
hash_plainly bytes = length bytes

abbrev tx : Transaction
tx = record {
  common_data = l2 (record {
    nonce = 3;
    initiator_address = 77;
    signature = [];
    transaction_type = TransactionType.ola_raw_transaction;
    input = some (record { hash = 99; bytes = [] });
  });
  execute = record { contract_address = 5; calldata = replicate 8 2; factory_deps = none };
  received_timestamp_ms = 0;
}

abbrev write : StorageLogQuery
write = record {
  log_query = record {
    timestamp = 0;
    tx_number_in_block = 0;
    aux_byte = 0;
    shard_id = 0;
    address = 5;
    key = 1;
    read_value = 0;
    written_value = 7;
    rw_flag = true;
    rollback = false;
    is_service = false;
  };
  log_type = StorageLogQueryType.initial_write;
}

abbrev logs : VmExecutionLogs
logs = record { storage_logs = write ∷ []; events = []; total_log_queries_count = 1 }

abbrev result : VmTxExeResult
result = record {
  status = TxExecutionStatus.success;
  result = record { logs = logs; revert_reason = none; contracts_used = 0; cycles_used = 0 };
  gas_refunded = 0;
  operator_suggested_refund = 0;
}

abbrev updates : List Update
updates = executed tx result default ∷ pushed 8 ∷ fictive logs ∷ []

updates-IsSound : All IsSound updates
unfolding from_transaction from_common Tx.hash Tx.hash_of Tx.l2_hash
updates-IsSound = (((omega arith, omega arith, omega arith), 99, refl), (tt, (tt, tt)))

abbrev hashes : BaseSystemContractsHashes
hashes = record { entrypoint = 1; default_aa = 2 }

run-Gathers_example :
    (v : UpdatesManager) × (run encode_nothing hash_plainly updates (new 4 hashes 0) ≡ returns v)
    × Gathers encode_nothing hash_plainly updates (new 4 hashes 0) v
run-Gathers_example =
    run-Gathers encode_nothing hash_plainly updates (new 4 hashes 0) updates-IsSound

abbrev key : StorageKey
key = record { account = 5; key = 1 }

new_batch_sealed_example :
    (u : UpdatesManager) × (run encode_nothing hash_plainly updates (new 4 hashes 0) ≡ returns u)
    × (drop (seal_miniblock_command 1 2 u).first_tx_index (transactions_of updates)
        ≡ map transaction_of (seal_miniblock_command 1 2 u).miniblock.executed_transactions)
    × (contains key u.storage_writes_deduplicator.modified_keys
        ≡ differs (first_read key (logs_of updates)) (last_value key (logs_of updates)))
new_batch_sealed_example =
    new_batch_sealed encode_nothing hash_plainly 4 hashes 0 updates 1 2 key updates-IsSound
