-- ===== src/Sequencer/Liveness.antt =====
-- A batch is sealed while transactions keep coming (`process_l1_batch` in
-- ola_core/src/sequencer/sequencer.rs with the criteria of seal_criteria).
use ola_os.Base.{
  ℕ, suc, ◌+◌, ◌%◌, ◌<◌, ◌≤◌, ◌≡◌, ◌≢◌, refl, sym, ap, ◌∙◌, false, some, List, [], ◌∷◌, map,
  returns, length, length-append, arith,
}
use ola_os.Base.Words.{u64_mod, wrapping_add64}
use ola_os.Types.Tx.{Transaction}
use ola_os.Types.Execution.{
  ExecutionMetrics, VmTxExeResult, VmPartialExecutionResult, TransactionExecutionResult,
}
use ola_os.TxData.{Value, encoded_transaction_size}
use ola_os.Updates.{UpdatesManager, pending_executed_transactions_len, pending_txs_encoding_size}
use ola_os.Updates.Pending.{all_transactions}
use ola_os.Updates.Runs.{transaction_of}
use ola_os.Seal.{
  Float64, SealManager, SealResolution, no_seal, exclude_and_seal, unexecutable,
  should_seal_l1_batch, bound, SequencerConfig, default_sealers, SealData, resolution, strictest,
  slots_criterion, tx_encoding_size_criterion, stricter, tx_encoding_space,
}
use ola_os.Seal.Batch.{
  after_transaction, reject_bound, default_sealers_decide, first_transaction_kept,
}
use ola_os.Sequencer.Io.{SequencerIo}
use ola_os.Sequencer.Resolve.{TxExecutionResult, decide}
use ola_os.Sequencer.Calm.{IsSoundTx}
use ola_os.Sequencer.Outcomes.{IsSuccess}

abbrev pub count : UpdatesManager → ℕ
count u = length (all_transactions u)

pub count-transactions :
    (rs : List TransactionExecutionResult) → length (map transaction_of rs) ≡ length rs
count-transactions [] = refl
count-transactions (r ∷ rs) = ap suc (count-transactions rs)

pub pending-count : (u : UpdatesManager) → pending_executed_transactions_len u ≡ count u % u64_mod
unfolding pending_executed_transactions_len wrapping_add64
pending-count u =
    omega (arith, length-append u.l1_batch.executed_transactions u.miniblock.executed_transactions)

-- The interfaces while work goes on: no stop signal, a transaction whenever one is asked for,
-- a timestamp for every miniblock, and executions that succeed. `Open` holds of the worlds in which
-- a batch is open, and `Held tx` of those in which `tx` was handed out last; only then it is
-- executed, or put back.
pub record IsServing {W B : Type 0} (fits : Transaction → Type 0) (Open : W → Type 0)
    (Held : Transaction → W → Type 0) (io : SequencerIo W B) : Type 0 where
  pub no_stop : (w : W) → Open w → (w' : W) × (io.stop_requested w ≡ returns (w', false)) × Open w'
  pub now : (w : W) → Open w → (w' : W) × (t : ℕ) × (io.now w ≡ returns (w', t)) × Open w'
  pub served :
      (w : W)
      → Open w
      → (w' : W) × (tx : Transaction) × (io.wait_for_next_tx w ≡ returns (w', some tx))
        × IsSoundTx tx
        × fits tx
        × Held tx w'
  pub executed :
      (tx : Transaction) (n : ℕ) (w : W)
      → Held tx w
      → (w' : W) × (r : TxExecutionResult) × (io.execute_tx tx n w ≡ returns (w', r))
        × IsSuccess r
        × Held tx w'
        × Open w'
  pub seal_miniblock :
      (u : UpdatesManager) (w : W)
      → Open w
      → (w' : W) × (io.seal_miniblock u w ≡ returns (w', tt)) × Open w'
  pub timestamps :
      (t : ℕ) (w : W)
      → Open w
      → (w' : W) × (t' : ℕ) × (io.wait_for_new_miniblock_params t w ≡ returns (w', some t'))
        × Open w'
  pub rollback :
      (tx : Transaction) (w : W)
      → Held tx w
      → (w' : W) × (io.rollback tx w ≡ returns (w', tt)) × Open w'

module _ (F : Float64) (message : List ℕ) (config : SequencerConfig F) (opened tx_count : ℕ)
    (block_data tx_data : SealData) where
  kept :
      (reason : List ℕ)
      → tx_data.cumulative_size ≤ reject_bound F message config opened tx_count block_data tx_data
      → after_transaction F message config opened tx_count block_data tx_data ≢ unexecutable reason
  unfolding resolution strictest default_sealers slots_criterion tx_encoding_size_criterion stricter
  kept reason small e = ground arith

module _ (F : Float64) (sealer : SealManager F) (message : List ℕ) (config : SequencerConfig F)
    (standard : sealer.conditional_sealer
      ≡ some (record { config = config; sealers = default_sealers F message })) where
  pub standard-after :
      (opened tx_count : ℕ) (block_data tx_data : SealData)
      → should_seal_l1_batch F sealer opened tx_count block_data tx_data
        ≡ after_transaction F message config opened tx_count block_data tx_data
  unfolding should_seal_l1_batch
  standard-after opened tx_count block_data tx_data = rw standard refl

  -- A transaction within the reject bound.
  abbrev pub FitsIn : (List Value → List ℕ) → (List ℕ → ℕ) → Transaction → Type 0
  FitsIn encode hash_bytecode tx =
      (size : ℕ) × (encoded_transaction_size encode hash_bytecode tx ≡ returns size)
      × (size ≤ bound F tx_encoding_space config.reject_tx_at_geometry_percentage)

  -- What the resolution of a fitting transaction can be.
  pub record Kept (u : UpdatesManager) (r : SealResolution) : Type 0 where
    pub executable : (reason : List ℕ) → r ≢ unexecutable reason
    pub slots_left : r ≡ no_seal → count u % u64_mod + 1 < config.transaction_slots
    pub not_first : pending_txs_encoding_size u ≡ 0 → r ≢ exclude_and_seal

  module _ (encode : List Value → List ℕ) (hash_bytecode : List ℕ → ℕ)
      (hex_encode : List ℕ → List ℕ)
      (sane : bound F tx_encoding_space config.reject_tx_at_geometry_percentage
        ≤ tx_encoding_space) where
    pub decide-Kept :
        (size : ℕ) (tx_result : VmTxExeResult) (tx_metrics tip_metrics : ExecutionMetrics)
        (tip_result : VmPartialExecutionResult) (u : UpdatesManager)
        → size ≤ bound F tx_encoding_space config.reject_tx_at_geometry_percentage
        → count u + 1 < u64_mod
        → Kept u
            (decide F sealer encode hash_bytecode hex_encode size tx_result tx_metrics tip_metrics
              tip_result u).1
    unfolding decide wrapping_add64
    decide-Kept size tx_result tx_metrics tip_metrics tip_result u small room = record {
      executable =
          λ reason e. kept F message config _ _ _ _ reason small (sym (standard-after _ _ _ _) ∙ e);
      slots_left = λ e. omega (
        arith,
        pending-count u,
        (default_sealers_decide F message config _ _ _ _).2.0 (sym (standard-after _ _ _ _) ∙ e),
      );
      not_first = λ alone e.
          first_transaction_kept F message config _ _ _ _ sane (omega (arith, alone))
            (sym (standard-after _ _ _ _) ∙ e);
    }
