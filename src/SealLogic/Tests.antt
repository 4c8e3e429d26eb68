-- ===== src/SealLogic/Tests.antt =====
-- Two transactions of one miniblock, each with logs and an event.
use ola_os.Base.{
  ℕ, ◌+◌, ◌≡◌, refl, Bool, true, false, none, some, List, [], ◌∷◌, map, flat_map, is_empty, length,
  replicate, returns, Outcome, arith,
}
use ola_os.Types.Tx.{Transaction, TransactionType, l2, hash}
use ola_os.Types.Log.{StorageLogQuery, StorageLogQueryType, StorageLog}
use ola_os.Types.Execution.{VmEvent, VmTxExeResult, TxExecutionStatus, default}
use ola_os.Convert.{
  bytes_to_u64s, u256_to_h256, to_be_bytes, chunks_from, bytes_to_be_words, u64s_to_bytes,
}
use ola_os.TxData.{Value, encoded_transaction_size, from_transaction}
use ola_os.Updates.{
  MiniblockSealCommand, UpdatesManager, BaseSystemContractsHashes, new, push_miniblock,
  extend_from_executed_transaction, seal_miniblock_command,
}
use ola_os.Updates.Runs.{Update, executed, pushed, run}
use ola_os.SealLogic.{DbWrite, IncludedTxLocation, seal, miniblock_writes, assert_valid_miniblock}
use ola_os.SealLogic.Groups.{tag, owned}
use ola_os.SealLogic.Miniblock.{IsSealable, hash_at, location_at, write_log, seal-owned}
use ola_os.SealLogic.Indexed.{run-seal}

abbrev tx : ℕ → Transaction
tx h = record {
  common_data = l2 (record {
    nonce = 3;
    initiator_address = 70 + h;
    signature = [];
    transaction_type = TransactionType.ola_raw_transaction;
    input = some (record { hash = h; bytes = [] });
  });
  execute = record { contract_address = 5; calldata = replicate 8 2; factory_deps = none };
  received_timestamp_ms = 0;
}

abbrev log : ℕ → Bool → StorageLogQuery
log index rw_flag = record {
  log_query = record {
    timestamp = 0;
    tx_number_in_block = index;
    aux_byte = 0;
    shard_id = 0;
    address = 5;
    key = index + 1;
    read_value = 0;
    written_value = 7;
    rw_flag = rw_flag;
    rollback = false;
    is_service = false;
  };
  log_type = StorageLogQueryType.initial_write;
}

abbrev event : ℕ → VmEvent
event index = record {
  batch_number = 1;
  tx_index = index;
  address = 5;
  indexed_topics = [];
  value = [];
}

abbrev result : ℕ → VmTxExeResult
result index = record {
  status = TxExecutionStatus.success;
  result = record {
    logs = record {
      storage_logs = log index true ∷ log index false ∷ [];
      events = event index ∷ [];
      total_log_queries_count = 2;
    };
    revert_reason = none;
    contracts_used = 0;
    cycles_used = 0;
  };
  gas_refunded = 0;
  operator_suggested_refund = 0;
}

abbrev hashes : BaseSystemContractsHashes
hashes = record { entrypoint = 0; default_aa = 1 }

abbrev command : MiniblockSealCommand
command = record {
  l1_batch_number = 1;
  miniblock_number = 8;
  miniblock = record {
    executed_transactions =
        record {
          transaction = tx 11;
          hash = 11;
          execution_info = default;
          execution_status = TxExecutionStatus.success;
          revert_reason = none;
        }
        ∷ record {
          transaction = tx 12;
          hash = 12;
          execution_info = default;
          execution_status = TxExecutionStatus.success;
          revert_reason = none;
        }
        ∷ [];
    events = event 4 ∷ event 5 ∷ [];
    storage_logs = log 4 true ∷ log 4 false ∷ log 5 true ∷ [];
    new_factory_deps = [];
    block_execution_metrics = default;
    txs_encoding_size = 0;
    timestamp = 30;
  };
  first_tx_index = 4;
  base_system_contracts_hashes = hashes;
  protocol_version = 0;
}

command-IsSealable : IsSealable command
unfolding hash
command-IsSealable = record {
  executed = refl;
  events = omega arith;
  logs = omega arith;
  hashed = ((11, refl), ((12, refl), tt));
  small = omega arith;
}

abbrev hash_plainly : List ℕ → ℕ
hash_plainly bytes = length bytes

-- A log of another transaction is no log of the miniblock.
stray_log : assert_valid_miniblock (record command { first_tx_index = 5 }) false ≡ Outcome.panics
unfolding assert_valid_miniblock
stray_log = refl

seal-owned_example :
    (write_logs : List (ℕ × List StorageLog)) × (events : List (IncludedTxLocation × List VmEvent))
    × (seal hash_plainly command
        ≡ returns (miniblock_writes hash_plainly command write_logs events))
    × (owned write_logs
        ≡ flat_map
            (λ log. map (tag (hash_at command log.log_query.tx_number_in_block)) (write_log log))
            command.miniblock.storage_logs)
    × (owned events
        ≡ flat_map (λ e. tag (location_at command e.tx_index) e ∷ []) command.miniblock.events)
seal-owned_example = seal-owned hash_plainly command command-IsSealable

abbrev encode_nothing : List Value → List ℕ
encode_nothing vs = []

abbrev updates : List Update
updates = executed (tx 11) (result 0) default ∷ pushed 8 ∷ executed (tx 12) (result 1) default ∷ []

abbrev value_of : Outcome UpdatesManager → UpdatesManager
value_of (returns v) = v
value_of _ = new 4 hashes 0

finished : UpdatesManager
finished = value_of (run encode_nothing hash_plainly updates (new 4 hashes 0))

ran : run encode_nothing hash_plainly updates (new 4 hashes 0) ≡ returns finished
unfolding finished run extend_from_executed_transaction encoded_transaction_size bytes_to_u64s
    u256_to_h256 to_be_bytes chunks_from from_transaction bytes_to_be_words u64s_to_bytes hash
ran = refl

has_one :
    (is_empty finished.miniblock.executed_transactions ≡ false)
    × (length finished.l1_batch.executed_transactions ≡ 1)
    × (length finished.miniblock.executed_transactions ≡ 1)
unfolding finished run new extend_from_executed_transaction encoded_transaction_size bytes_to_u64s
    u256_to_h256 to_be_bytes chunks_from from_transaction bytes_to_be_words u64s_to_bytes hash
    push_miniblock
has_one = (refl, refl, refl)

run-seal_example :
    (writes : List DbWrite) × (seal hash_plainly (seal_miniblock_command 1 8 finished)
      ≡ returns writes)
run-seal_example =
    run-seal encode_nothing hash_plainly hash_plainly 4 0 1 8 hashes updates finished (omega arith)
      ran has_one.0 (omega (arith, has_one.1, has_one.2))
