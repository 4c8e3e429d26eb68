-- ===== src/Seal/Tests.antt =====
-- The criteria with hundredths in place of floats.
use ola_os.Base.{ℕ, ◌+◌, ◌-◌, ◌*◌, ◌/◌, ◌≤◌, ◌<◌, ◌≡◌, ◌≢◌, ◌↔◌, refl, true, List, [], ◌∷◌, arith}
use ola_os.Types.Execution.{default}
use ola_os.Updates.{UpdatesManager, BaseSystemContractsHashes, pending_executed_transactions_len}
use ola_os.Updates
use ola_os.Seal.{
  no_seal, include_and_seal, exclude_and_seal, unexecutable, stricter, SealData, Float64,
  SequencerConfig, bound, resolution, default_sealers, SealManager,
  should_seal_l1_batch_unconditionally, tx_encoding_space, strictest, slots_criterion,
  tx_encoding_size_criterion,
}
use ola_os.Seal.Strict.{severity, strictness, severity-resolution}
use ola_os.Seal.Batch.{after_transaction, reject_bound, close_bound, default_sealers_decide}
use ola_os.Seal.Timeout.{made_manager, new_long, should_seal_l1_batch_unconditionally_lem}

abbrev hundredths : Float64
hundredths = record {
  f64 = ℕ;
  from_nat = λ n. n * 100;
  mul = λ a b. a * b / 100;
  round = λ a. (a + 50) / 100 * 100;
  to_usize = λ a. a / 100;
}

abbrev config : SequencerConfig hundredths
config = record {
  miniblock_commit_deadline_ms = 1000;
  block_commit_deadline_ms = 2500;
  reject_tx_at_geometry_percentage = 95;
  close_block_at_geometry_percentage = 90;
  transaction_slots = 250;
}

abbrev sized : ℕ → SealData
sized n = record {
  execution_metrics = default;
  cumulative_size = n;
  writes_metrics = record { initial_storage_writes = 0; repeated_storage_writes = 0 };
}

abbrev message : List ℕ
message = 84 ∷ []

-- A third of the space is open, nine tenths and one close the batch, and too much is put off.
decisions :
    (after_transaction hundredths message config 0 1 (sized 11184810) (sized 9) ≡ no_seal)
    × (after_transaction hundredths message config 0 1 (sized 30198990) (sized 9)
        ≡ include_and_seal)
    × (after_transaction hundredths message config 0 250 (sized 33554433) (sized 9)
        ≡ exclude_and_seal)
    × (after_transaction hundredths message config 0 1 (sized 33554432) (sized 33554432)
        ≡ unexecutable message)
unfolding resolution strictest default_sealers slots_criterion tx_encoding_size_criterion stricter
    bound
decisions = (refl, refl, refl, refl)

severity-resolution_example :
    severity (
      resolution hundredths
        (record { config = config; sealers = default_sealers hundredths message })
        0
        1
        (sized 9)
        (sized 9))
    ≡ strictness hundredths config 0 1 (sized 9) (sized 9) (default_sealers hundredths message)
severity-resolution_example =
    severity-resolution hundredths config 0 1 (sized 9) (sized 9)
      (default_sealers hundredths message)

default_sealers_decide_example :
    let after = after_transaction hundredths message config 0 1 (sized 9) (sized 9) in
    ((after ≡ unexecutable message)
      ↔ (reject_bound hundredths message config 0 1 (sized 9) (sized 9) < 9))
    × ((after ≡ exclude_and_seal) ↔ (
        (9 ≤ reject_bound hundredths message config 0 1 (sized 9) (sized 9))
        × (tx_encoding_space < 9)))
    × ((after ≡ no_seal) ↔ (
        (9 ≤ reject_bound hundredths message config 0 1 (sized 9) (sized 9))
        × (9 ≤ tx_encoding_space)
        × (9 ≤ close_bound hundredths message config 0 1 (sized 9) (sized 9))
        × (1 < 250)))
default_sealers_decide_example =
    default_sealers_decide hundredths message config 0 1 (sized 9) (sized 9)

abbrev manager : SealManager hundredths
manager = made_manager hundredths message config

abbrev fresh : UpdatesManager
fresh = Updates.new 4 (record { entrypoint = 1; default_aa = 2 }) 0

should_seal_l1_batch_unconditionally_lem_example :
    (should_seal_l1_batch_unconditionally hundredths manager 7000 fresh ≡ true) ↔ (
      (pending_executed_transactions_len fresh ≢ 0)
      × (config.block_commit_deadline_ms < 7000 - fresh.batch_timestamp * 1000))
should_seal_l1_batch_unconditionally_lem_example =
    should_seal_l1_batch_unconditionally_lem hundredths message config manager
      (new_long hundredths message config (omega arith)) 7000 fresh (omega arith)
      (unfold Updates.new in omega arith)
