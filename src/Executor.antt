-- ===== src/Executor.antt =====
-- The batch executor (ola_core/src/sequencer/batch_executor/mod.rs) and what it makes of the logs
-- and the events of the virtual machine (types/src/storage/log.rs, types/src/events.rs,
-- vm/src/vm.rs). The virtual machine, `BlockExeManager` of the crate ola_executor, is a parameter.
pub mod Tape
pub mod Commands
pub mod Answers
mod Tests
use ola_os.Base.{
  ℕ, ◌-◌, ◌%◌, Bool, true, false, not, Option, none, some, List, [], ◌∷◌, map, Outcome, returns,
  panics, ◌>>=◌, length, take, drop, ltb, if◌then◌else◌,
}
use ola_os.Types.Tx.{
  Transaction, Execute, L2TxCommonData, ExecuteTransactionCommon, l2, protocol_upgrade,
  tx_type_number,
}
use ola_os.Types.Tx
use ola_os.Types.Log.{LogQuery, StorageLogQuery, StorageLogQueryType}
use ola_os.Types.Execution.{
  VmEvent, VmExecutionLogs, VmPartialExecutionResult, VmTxExeResult, TxExecutionStatus, default,
}
use ola_os.Convert.{bytes_to_u64s, h256_to_u64_array, u64s_to_bytes, u64s_to_u256, u256_to_h256}
use ola_os.RevertReason.{general, tx_reverted}
use ola_os.Sequencer.Resolve.{TxExecutionResult, success, rejected_by_vm}

-- The types of the virtual machine's crate, with the fields that are read.
pub data StorageAccessKind : Type 0 where
  read initial_write repeated_write : StorageAccessKind

pub record StorageAccessLog : Type 0 where
  pub block_timestamp : ℕ
  pub contract_addr : List ℕ
  pub storage_key : List ℕ
  pub kind : StorageAccessKind
  pub pre_value : Option (List ℕ)
  pub value : Option (List ℕ)

pub record Event : Type 0 where
  pub batch_number : ℕ
  pub index_in_batch : ℕ
  pub address : List ℕ
  pub topics : List (List ℕ)
  pub event_data : List ℕ

pub record OlaTapeInitInfo : Type 0 where
  pub version : ℕ
  pub origin_address : List ℕ
  pub calldata : List ℕ
  pub nonce : ℕ
  pub signature_r : List ℕ
  pub signature_s : List ℕ
  pub tx_hash : List ℕ

-- What an invocation returns, without the trace.
pub record InvokeResult : Type 0 where
  pub storage_access_logs : List StorageAccessLog
  pub events : List Event

-- What the machine returns for a whole batch, without the traces.
pub record BatchResult : Type 0 where
  pub storage_access_logs : List StorageAccessLog
  pub events : List Event
  pub block_tip_queries : List StorageAccessLog

pub data Invoked : Type 0 where
  ok : InvokeResult → Invoked
  error : List ℕ → Invoked

pub record BlockExeManager (X : Type 0) : Type 0 where
  pub invoke : OlaTapeInitInfo → X → X × Invoked
  pub finish_batch : X → Option BatchResult

unfoldable pub log_type_from : StorageAccessKind → StorageLogQueryType
log_type_from StorageAccessKind.read = StorageLogQueryType.read
log_type_from StorageAccessKind.initial_write = StorageLogQueryType.initial_write
log_type_from StorageAccessKind.repeated_write = StorageLogQueryType.repeated_write

-- `kind != StorageAccessKind::Read`
abbrev pub is_write : StorageAccessKind → Bool
is_write StorageAccessKind.read = false
is_write _ = true

-- `unwrap_or_default` of a word of four limbs.
abbrev pub word_or_default : Option (List ℕ) → List ℕ
word_or_default none = 0 ∷ 0 ∷ 0 ∷ 0 ∷ []
word_or_default (some w) = w

unfoldable pub log_query_from : StorageAccessLog → LogQuery
log_query_from log = record {
  timestamp = log.block_timestamp % 4294967296;
  tx_number_in_block = 0;
  aux_byte = 0;
  shard_id = 0;
  address = u64s_to_u256 log.contract_addr;
  key = u64s_to_u256 log.storage_key;
  read_value = u64s_to_u256 (word_or_default log.pre_value);
  written_value = u64s_to_u256 (word_or_default log.value);
  rw_flag = is_write log.kind;
  rollback = false;
  is_service = false;
}

unfoldable pub storage_log_query_from : StorageAccessLog → StorageLogQuery
unfolding log_query_from log_type_from
storage_log_query_from log = record {
  log_query = log_query_from log;
  log_type = log_type_from log.kind;
}

unfoldable pub vm_event_from : Event → VmEvent
vm_event_from event = record {
  batch_number = event.batch_number % 4294967296;
  tx_index = event.index_in_batch % 4294967296;
  address = u64s_to_u256 event.address;
  indexed_topics = map u64s_to_u256 event.topics;
  value = u64s_to_bytes event.event_data;
}

-- A log of a transaction, whose index is cut to a `u16`.
unfoldable pub numbered : ℕ → StorageAccessLog → StorageLogQuery
unfolding log_query_from log_type_from
numbered tx_index log = record {
  log_query = record (log_query_from log) { tx_number_in_block = tx_index % 65536 };
  log_type = log_type_from log.kind;
}

unfoldable pub from_storage_events :
    List StorageAccessLog → List Event → ℕ → VmPartialExecutionResult
unfolding numbered vm_event_from
from_storage_events logs events tx_index_in_l1_batch = record {
  logs = record {
    storage_logs = map (numbered tx_index_in_l1_batch) logs;
    events = map vm_event_from events;
    total_log_queries_count = length (map (numbered tx_index_in_l1_batch) logs);
  };
  revert_reason = none;
  contracts_used = 0;
  cycles_used = 0;
}

-- `VmPartialExecutionResult::default`
abbrev pub empty_result : VmPartialExecutionResult
empty_result = record {
  logs = record { storage_logs = []; events = []; total_log_queries_count = 0 };
  revert_reason = none;
  contracts_used = 0;
  cycles_used = 0;
}

-- `v[from..to]`
unfoldable pub slice : ℕ → ℕ → List ℕ → Outcome (List ℕ)
slice from to v = if ltb (length v) to then panics else returns (take (to - from) (drop from v))

-- `get(0)` to `get(3)`, unwrapped.
unfoldable pub first_four : List ℕ → Outcome (List ℕ)
first_four (a ∷ b ∷ c ∷ d ∷ rest) = returns (a ∷ b ∷ c ∷ d ∷ [])
first_four _ = panics

-- What the machine is given for an L2 transaction.
unfoldable pub tape_init_info : L2TxCommonData → List ℕ → ℕ → Outcome OlaTapeInitInfo
unfolding slice first_four
tape_init_info tx calldata hash = do
  r ← slice 0 32 tx.signature
  s ← slice 32 64 tx.signature
  r_words ← bytes_to_u64s r
  s_words ← bytes_to_u64s s
  calldata_words ← bytes_to_u64s calldata
  signature_r ← first_four r_words
  signature_s ← first_four s_words
  returns (record {
    version = tx_type_number tx.transaction_type;
    origin_address = h256_to_u64_array (u256_to_h256 tx.initiator_address);
    calldata = calldata_words;
    nonce = tx.nonce;
    signature_r = signature_r;
    signature_s = signature_s;
    tx_hash = h256_to_u64_array (u256_to_h256 hash);
  })

-- The match on the machine's answer.
unfoldable pub execution_result : Invoked → ℕ → TxExecutionResult
unfolding from_storage_events
execution_result (ok result) tx_index =
    success
      (record {
        status = TxExecutionStatus.success;
        result = from_storage_events result.storage_access_logs result.events tx_index;
        gas_refunded = 0;
        operator_suggested_refund = 0;
      })
      default default empty_result
execution_result (error message) tx_index = rejected_by_vm (tx_reverted (general message []))

module _ {X : Type 0} (manager : BlockExeManager X) where
  unfoldable pub tx_of :
      ExecuteTransactionCommon → List ℕ → ℕ → ℕ → X → Outcome (X × TxExecutionResult)
  unfolding tape_init_info execution_result
  tx_of (l2 d) calldata hash tx_index x = do
    info ← tape_init_info d calldata hash
    let (x', answer) = manager.invoke info x
    returns (x', execution_result answer tx_index)
  tx_of (protocol_upgrade d) calldata hash tx_index x = panics

  -- `BatchExecutor::tx`
  unfoldable pub tx : Transaction → ℕ → X → Outcome (X × TxExecutionResult)
  unfolding tx_of
  tx t tx_index x = do hash ← Tx.hash t; tx_of t.common_data t.execute.calldata hash tx_index x
