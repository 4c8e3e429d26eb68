-- ===== src/Updates.antt =====
-- What a batch and its open miniblock have gathered (ola_core/src/sequencer/updates). The size of
-- a transaction is `TxData.encoded_transaction_size`, so the ABI encoder and the bytecode hash are
-- parameters. Priority operations, which nothing adds, are left out of the batch.
pub mod Pending
pub mod Runs
pub mod Sealed
mod Tests
use ola_os.Base.{ℕ, Option, none, some, List, [], ◌∷◌, ◌++◌, Outcome, returns, ◌>>=◌, length}
use ola_os.Base.Order.{nat_ord}
use ola_os.Base.Map
use ola_os.Base.Map.{Map}
use ola_os.Base.Words.{wrapping_add64}
use ola_os.Types.Log.{StorageLogQuery}
use ola_os.Types.Tx.{Transaction}
use ola_os.Types.Tx
use ola_os.Types.Execution.{
  ExecutionMetrics, VmEvent, VmExecutionLogs, VmTxExeResult, TransactionExecutionResult, default,
  add,
}
use ola_os.Dedup.{StorageWritesDeduplicator, apply}
use ola_os.Dedup
use ola_os.TxData.{Value, encoded_transaction_size, or_default}

pub record L1BatchUpdates : Type 0 where
  pub executed_transactions : List TransactionExecutionResult
  pub block_storage_logs : List StorageLogQuery
  pub block_execution_metrics : ExecutionMetrics
  pub txs_encoding_size : ℕ

pub record MiniblockUpdates : Type 0 where
  pub executed_transactions : List TransactionExecutionResult
  pub events : List VmEvent
  pub storage_logs : List StorageLogQuery
  pub new_factory_deps : Map ℕ (List ℕ)
  pub block_execution_metrics : ExecutionMetrics
  pub txs_encoding_size : ℕ
  pub timestamp : ℕ

pub record BaseSystemContractsHashes : Type 0 where
  pub entrypoint : ℕ
  pub default_aa : ℕ

pub record MiniblockSealCommand : Type 0 where
  pub l1_batch_number : ℕ
  pub miniblock_number : ℕ
  pub miniblock : MiniblockUpdates
  pub first_tx_index : ℕ
  pub base_system_contracts_hashes : BaseSystemContractsHashes
  pub protocol_version : ℕ

pub record UpdatesManager : Type 0 where
  pub batch_timestamp : ℕ
  pub base_system_contract_hashes : BaseSystemContractsHashes
  pub protocol_version : ℕ
  pub l1_batch : L1BatchUpdates
  pub miniblock : MiniblockUpdates
  pub storage_writes_deduplicator : StorageWritesDeduplicator

-- `L1BatchUpdates::new`
abbrev pub new_batch : L1BatchUpdates
new_batch = record {
  executed_transactions = [];
  block_storage_logs = [];
  block_execution_metrics = default;
  txs_encoding_size = 0;
}

-- `MiniblockUpdates::new`
unfoldable pub new_miniblock : ℕ → MiniblockUpdates
new_miniblock timestamp = record {
  executed_transactions = [];
  events = [];
  storage_logs = [];
  new_factory_deps = [];
  block_execution_metrics = default;
  txs_encoding_size = 0;
  timestamp = timestamp;
}

-- `UpdatesManager::new`, with the timestamp of the block's context.
unfoldable pub new : ℕ → BaseSystemContractsHashes → ℕ → UpdatesManager
unfolding new_miniblock
new timestamp hashes version = record {
  batch_timestamp = timestamp;
  base_system_contract_hashes = hashes;
  protocol_version = version;
  l1_batch = new_batch;
  miniblock = new_miniblock timestamp;
  storage_writes_deduplicator = Dedup.new;
}

unfoldable pub extend_from_sealed_miniblock : L1BatchUpdates → MiniblockUpdates → L1BatchUpdates
extend_from_sealed_miniblock b m = record {
  executed_transactions = b.executed_transactions ++ m.executed_transactions;
  block_storage_logs = b.block_storage_logs ++ m.storage_logs;
  block_execution_metrics = add b.block_execution_metrics m.block_execution_metrics;
  txs_encoding_size = wrapping_add64 b.txs_encoding_size m.txs_encoding_size;
}

unfoldable pub push_miniblock : ℕ → UpdatesManager → UpdatesManager
unfolding extend_from_sealed_miniblock new_miniblock
push_miniblock new_miniblock_timestamp u = record u {
  miniblock = new_miniblock new_miniblock_timestamp;
  l1_batch = extend_from_sealed_miniblock u.l1_batch u.miniblock;
}

-- `HashMap::extend`: a later entry replaces an earlier one.
unfoldable pub extend : List (ℕ × List ℕ) → Map ℕ (List ℕ) → Map ℕ (List ℕ)
extend [] m = m
extend ((k, v) ∷ entries) m = extend entries (Map.insert k v m)

-- The bytecodes by their hashes.
unfoldable pub hashed : (List ℕ → ℕ) → List (List ℕ) → List (ℕ × List ℕ)
hashed hash_bytecode [] = []
hashed hash_bytecode (code ∷ codes) = (hash_bytecode code, code) ∷ hashed hash_bytecode codes

-- The logs of a transaction that is not executed as one, such as the block's end.
unfoldable pub extend_miniblock_from_fictive : VmExecutionLogs → MiniblockUpdates → MiniblockUpdates
extend_miniblock_from_fictive logs m = record m {
  events = m.events ++ logs.events;
  storage_logs = m.storage_logs ++ logs.storage_logs;
}

unfoldable pub extend_from_fictive_transaction : VmExecutionLogs → UpdatesManager → UpdatesManager
unfolding extend_miniblock_from_fictive
extend_from_fictive_transaction logs u = record u {
  storage_writes_deduplicator = apply logs.storage_logs u.storage_writes_deduplicator;
  miniblock = extend_miniblock_from_fictive logs u.miniblock;
}

-- The fields that a transaction adds to, once its size and its hash are known.
unfoldable pub add_executed :
    (List ℕ → ℕ)
    → Transaction
    → VmTxExeResult
    → ExecutionMetrics
    → ℕ
    → ℕ
    → MiniblockUpdates
    → MiniblockUpdates
unfolding hashed extend
add_executed hash_bytecode tx r metrics size hash m =
    let deps = extend (hashed hash_bytecode (or_default tx.execute.factory_deps)) [] in
    record m {
      new_factory_deps = extend deps m.new_factory_deps;
      events = m.events ++ r.result.logs.events;
      storage_logs = m.storage_logs ++ r.result.logs.storage_logs;
      block_execution_metrics = add m.block_execution_metrics metrics;
      txs_encoding_size = wrapping_add64 m.txs_encoding_size size;
      executed_transactions =
          m.executed_transactions
          ++ record {
            transaction = tx;
            hash = hash;
            execution_info = metrics;
            execution_status = r.status;
            revert_reason = r.result.revert_reason;
          }
            ∷ [];
    }

module _ (encode : List Value → List ℕ) (hash_bytecode : List ℕ → ℕ) where
  unfoldable pub extend_miniblock_from_executed :
      Transaction → VmTxExeResult → ExecutionMetrics → MiniblockUpdates → Outcome MiniblockUpdates
  unfolding add_executed
  extend_miniblock_from_executed tx r metrics m = do
    size ← encoded_transaction_size encode hash_bytecode tx
    hash ← Tx.hash tx
    returns (add_executed hash_bytecode tx r metrics size hash m)

  unfoldable pub extend_from_executed_transaction :
      Transaction → VmTxExeResult → ExecutionMetrics → UpdatesManager → Outcome UpdatesManager
  unfolding extend_miniblock_from_executed
  extend_from_executed_transaction tx r metrics u = do
    m ← extend_miniblock_from_executed tx r metrics u.miniblock
    returns (record u {
      storage_writes_deduplicator = apply r.result.logs.storage_logs u.storage_writes_deduplicator;
      miniblock = m;
    })

unfoldable pub seal_miniblock_command : ℕ → ℕ → UpdatesManager → MiniblockSealCommand
seal_miniblock_command l1_batch_number miniblock_number u = record {
  l1_batch_number = l1_batch_number;
  miniblock_number = miniblock_number;
  miniblock = u.miniblock;
  first_tx_index = length u.l1_batch.executed_transactions;
  base_system_contracts_hashes = u.base_system_contract_hashes;
  protocol_version = u.protocol_version;
}

unfoldable pub pending_executed_transactions_len : UpdatesManager → ℕ
pending_executed_transactions_len u =
    wrapping_add64 (length u.l1_batch.executed_transactions)
      (length u.miniblock.executed_transactions)

unfoldable pub pending_execution_metrics : UpdatesManager → ExecutionMetrics
pending_execution_metrics u =
    add u.l1_batch.block_execution_metrics u.miniblock.block_execution_metrics

unfoldable pub pending_txs_encoding_size : UpdatesManager → ℕ
pending_txs_encoding_size u =
    wrapping_add64 u.l1_batch.txs_encoding_size u.miniblock.txs_encoding_size
