-- ===== src/Types/Execution.antt =====
-- What the execution of a transaction leaves (types/src/tx/tx_execution_info.rs, types/src/tx/mod.rs,
-- types/src/events.rs, vm/src/vm.rs). Strings are their UTF-8 bytes. The trace of the virtual
-- machine and the call traces, which are external data that no modelled code reads, are left out.
use ola_os.Base.{ℕ, ◌+◌, ◌%◌, ◌≡◌, arith, Option, List}
use ola_os.Base.Words.{wrapping_add64, wrapping_add32}
use ola_os.Types.Log.{StorageLogQuery}
use ola_os.Types.Tx.{Transaction}

pub record ExecutionMetrics : Type 0 where
  pub published_bytecode_bytes : ℕ
  pub contracts_used : ℕ
  pub contracts_deployed : ℕ
  pub vm_events : ℕ
  pub storage_logs : ℕ
  pub total_log_queries : ℕ
  pub cycles_used : ℕ

-- `ExecutionMetrics::default`
abbrev pub default : ExecutionMetrics
default = record {
  published_bytecode_bytes = 0;
  contracts_used = 0;
  contracts_deployed = 0;
  vm_events = 0;
  storage_logs = 0;
  total_log_queries = 0;
  cycles_used = 0;
}

-- `Add`, field by field: `usize` fields, a `u16` and a `u32`.
unfoldable pub add : ExecutionMetrics → ExecutionMetrics → ExecutionMetrics
add a b = record {
  published_bytecode_bytes = wrapping_add64 a.published_bytecode_bytes b.published_bytecode_bytes;
  contracts_used = wrapping_add64 a.contracts_used b.contracts_used;
  contracts_deployed = (a.contracts_deployed + b.contracts_deployed) % 65536;
  vm_events = wrapping_add64 a.vm_events b.vm_events;
  storage_logs = wrapping_add64 a.storage_logs b.storage_logs;
  total_log_queries = wrapping_add64 a.total_log_queries b.total_log_queries;
  cycles_used = wrapping_add32 a.cycles_used b.cycles_used;
}

-- The wrapped sums do not depend on how they are grouped.
pub add_assoc : (a b c : ExecutionMetrics) → add (add a b) c ≡ add a (add b c)
unfolding add wrapping_add64 wrapping_add32
add_assoc a b c = ground arith

-- Adding the default to a sum changes nothing.
pub add-default : (a b : ExecutionMetrics) → add (add a b) default ≡ add a b
unfolding add wrapping_add64 wrapping_add32
add-default a b = ground arith

-- A default in between changes nothing either.
pub add-default_left : (a b : ExecutionMetrics) → add (add a default) b ≡ add a b
unfolding add wrapping_add64 wrapping_add32
add-default_left a b = ground arith

pub add-default_inner : (a b : ExecutionMetrics) → add a (add default b) ≡ add a b
unfolding add wrapping_add64 wrapping_add32
add-default_inner a b = ground arith

pub add_comm : (a b : ExecutionMetrics) → add a b ≡ add b a
unfolding add wrapping_add64 wrapping_add32
add_comm a b = ground arith

pub data TxExecutionStatus : Type 0 where
  success failure : TxExecutionStatus

pub record VmEvent : Type 0 where
  pub batch_number : ℕ
  pub tx_index : ℕ
  pub address : ℕ
  pub indexed_topics : List ℕ
  pub value : List ℕ

pub record VmExecutionLogs : Type 0 where
  pub storage_logs : List StorageLogQuery
  pub events : List VmEvent
  pub total_log_queries_count : ℕ

pub record VmPartialExecutionResult : Type 0 where
  pub logs : VmExecutionLogs
  pub revert_reason : Option (List ℕ)
  pub contracts_used : ℕ
  pub cycles_used : ℕ

pub record VmTxExeResult : Type 0 where
  pub status : TxExecutionStatus
  pub result : VmPartialExecutionResult
  pub gas_refunded : ℕ
  pub operator_suggested_refund : ℕ

pub record TransactionExecutionResult : Type 0 where
  pub transaction : Transaction
  pub hash : ℕ
  pub execution_info : ExecutionMetrics
  pub execution_status : TxExecutionStatus
  pub revert_reason : Option (List ℕ)
