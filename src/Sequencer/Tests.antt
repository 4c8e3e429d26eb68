-- ===== src/Sequencer/Tests.antt =====
-- A sequencer that serves one transaction again and again; the world counts the calls for one.
use ola_os.Base.{
  ℕ, suc, ◌+◌, ◌<◌, ◌≡◌, refl, List, [], ◌∷◌, none, some, true, false, returns, map, ◌*◌, ◌/◌,
  replicate, length, arith, ltb,
}
use ola_os.Types.Tx.{Transaction, TransactionType, l2}
use ola_os.Types.Tx
use ola_os.Types.Execution.{VmPartialExecutionResult, VmTxExeResult, TxExecutionStatus, default}
use ola_os.Dedup.Rollback.{new-IsValid}
use ola_os.TxData
use ola_os.TxData.{Value, from_transaction, from_common}
use ola_os.Updates.{UpdatesManager, new, new_miniblock}
use ola_os.Updates.Pending.{all_transactions}
use ola_os.Updates.Runs.{Update, run, transaction_of}
use ola_os.Seal.{Float64, SealManager, SequencerConfig, default_sealers, SealResolution}
use ola_os.Async.{ready, Holds}
use ola_os.Sequencer.Resolve.{TxExecutionResult, success, rejected_by_vm, seal_resolution}
use ola_os.RevertReason.{not_enough_gas_provided}
use ola_os.Sequencer.Io.{SequencerIo, L1BatchParams, MiniblockReexecuteData}
use ola_os.Sequencer.Run.{new_updates, restore_state}
use ola_os.Sequencer.Calm.{IsSoundTx}
use ola_os.Sequencer.Recorded.{recorded, no_trace, Interleaves}
use ola_os.Sequencer.Whole.{whole_batch, whole_batch-Accounts}
use ola_os.Sequencer.Restore.{
  Restores, pending, next_miniblock, no_miniblock, one_more, no_more, restore_state-run,
}
use ola_os.Sequencer.Excluded.{IsUnchanged, seal_resolution-IsUnchanged}

abbrev encode : List Value → List ℕ
encode vs = []

abbrev hash_plainly : List ℕ → ℕ
hash_plainly bytes = length bytes

abbrev hex_encode : List ℕ → List ℕ
hex_encode bytes = bytes

abbrev tx : Transaction
tx = record {
  common_data = l2 (record {
    nonce = 3;
    initiator_address = 77;
    signature = [];
    transaction_type = TransactionType.ola_raw_transaction;
    input = some (record { hash = 99; bytes = [] });
  });
  execute = record { contract_address = 5; calldata = replicate 8 2; factory_deps = none };
  received_timestamp_ms = 0;
}

abbrev nothing : VmPartialExecutionResult
nothing = record {
  logs = record { storage_logs = []; events = []; total_log_queries_count = 0 };
  revert_reason = none;
  contracts_used = 0;
  cycles_used = 0;
}

abbrev status : VmTxExeResult
status = record {
  status = TxExecutionStatus.success;
  result = nothing;
  gas_refunded = 0;
  operator_suggested_refund = 0;
}

abbrev executed : TxExecutionResult
executed = success status default default nothing

abbrev params : L1BatchParams
params = record {
  block_number = 1;
  block_timestamp = 4;
  base_system_contracts_hashes = record { entrypoint = 1; default_aa = 2 };
  protocol_version = 0;
}

abbrev io : (ℕ → ℕ → TxExecutionResult) → SequencerIo ℕ (Unit {0})
io execute = record {
  stop_requested = λ w. returns (w, false);
  now = λ w. returns (w, 5000);
  execute_tx = λ t n w. returns (w, execute n w);
  init_batch = λ p w. returns (w, tt);
  finish_batch = λ n w. returns (w, tt);
  put_witness = λ b w. returns (w, tt);
  load_pending_batch = λ w. returns (w, none);
  wait_for_new_batch_params = λ w. returns (w, some params);
  wait_for_new_miniblock_params = λ t w. returns (w, some (t + 1));
  wait_for_next_tx = λ w. returns (suc w, some tx);
  rollback = λ t w. returns (w, tt);
  reject = λ t reason w. returns (w, tt);
  seal_miniblock = λ u w. returns (w, tt);
  seal_l1_batch = λ b u p w. returns (w, tt);
  load_previous_batch_version_id = λ w. returns (w, none);
  load_upgrade_tx = λ v w. returns (w, none);
}

tx-IsSoundTx : IsSoundTx tx
unfolding from_transaction from_common Tx.hash Tx.hash_of Tx.l2_hash
tx-IsSoundTx = ((omega arith, omega arith, omega arith), 99, refl)

-- The second call is rejected for its gas.
abbrev sometimes : ℕ → ℕ → TxExecutionResult
sometimes n w = elim (ltb n 1) [ true ↦ executed | false ↦ rejected_by_vm not_enough_gas_provided ]

abbrev hundredths : Float64
hundredths = record {
  f64 = ℕ;
  from_nat = λ n. n * 100;
  mul = λ a b. a * b / 100;
  round = λ a. (a + 50) / 100 * 100;
  to_usize = λ a. a / 100;
}

abbrev config : SequencerConfig hundredths
config = record {
  miniblock_commit_deadline_ms = 1000;
  block_commit_deadline_ms = 2500;
  reject_tx_at_geometry_percentage = 95;
  close_block_at_geometry_percentage = 90;
  transaction_slots = 3;
}

abbrev sealer : SealManager hundredths
sealer = record {
  conditional_sealer = some (record { config = config; sealers = default_sealers hundredths [] });
  unconditional_sealers = [];
  miniblock_sealers = [];
}

whole_batch-Accounts_example :
    Holds
      (λ s v.
        Interleaves s.1.served (map transaction_of s.1.sealed) s.1.given_back
        × (all_transactions v ≡ s.1.sealed))
      (whole_batch encode hash_plainly hex_encode hundredths sealer
        (recorded (io sometimes))
        9
        none
        params
        (0, no_trace))
whole_batch-Accounts_example =
    whole_batch-Accounts encode hash_plainly hex_encode hundredths sealer (io sometimes) 9 none
      params 0

abbrev Open : ℕ → Type 0
Open w = Unit

abbrev Held : Transaction → ℕ → Type 0
Held t w = (t ≡ tx) × (0 < w)

abbrev stored : List MiniblockReexecuteData
stored =
    record { number = 1; timestamp = 4; txs = tx ∷ tx ∷ [] }
    ∷ record { number = 2; timestamp = 6; txs = tx ∷ [] }
    ∷ []

-- Only the first three transactions of a batch execute.
abbrev thrice : ℕ → ℕ → TxExecutionResult
thrice n w = elim (ltb n 3) [ true ↦ executed | false ↦ rejected_by_vm not_enough_gas_provided ]

abbrev once_more : Update
once_more = Update.executed tx status default

abbrev restored : List Update
restored = once_more ∷ once_more ∷ Update.pushed 6 ∷ once_more ∷ Update.pushed 7 ∷ []

stored-Restores : Restores (io thrice) 4 stored 0 restored 0
stored-Restores =
    pending
      (one_more status default default nothing refl
        (one_more status default default nothing refl no_more))
      (next_miniblock (one_more status default default nothing refl no_more) no_miniblock) refl

restore_state-run_example :
    (v : UpdatesManager) × (restore_state encode hash_plainly
        (io thrice)
        1
        stored
        (new_updates params)
        0
      ≡ ready 0 v)
    × (run encode hash_plainly restored (new_updates params) ≡ returns v)
unfolding new_updates new new_miniblock
restore_state-run_example =
    restore_state-run encode hash_plainly (io thrice) 0 stored (new_updates params) 0 0 restored
      stored-Restores ((tx-IsSoundTx, (tx-IsSoundTx, tt)), ((tx-IsSoundTx, tt), tt))

seal_resolution-IsUnchanged_example : IsUnchanged (new_updates params) (new_updates params)
unfolding seal_resolution new_updates new new_miniblock
seal_resolution-IsUnchanged_example =
    seal_resolution-IsUnchanged hundredths sealer encode hash_plainly hex_encode tx
      (rejected_by_vm not_enough_gas_provided) (new_updates params) (new_updates params)
      SealResolution.exclude_and_seal new-IsValid refl
