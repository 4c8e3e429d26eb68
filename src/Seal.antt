-- ===== src/Seal.antt =====
-- When a batch and a miniblock are sealed (ola_core/src/sequencer/seal_criteria). The 64-bit floats
-- of the bounds and the system's clock are parameters. Criteria return their resolution, and their
-- names and log lines are left out.
pub mod Strict
pub mod Batch
pub mod Timeout
mod Tests
use ola_os.Base.{
  ℕ, ◌+◌, ◌-◌, ◌*◌, ◌%◌, Bool, true, false, not, ◌&&◌, ◌||◌, Option, none, some, List, [], ◌∷◌,
  Outcome, returns, panics, ◌>>=◌, ltb, leb, ◌==◌, is_empty, if◌then◌else◌,
}
use ola_os.Base.Words.{u64_mod, u128_mod}
use ola_os.Types.Execution.{ExecutionMetrics}
use ola_os.Dedup.{DeduplicatedWritesMetrics}
use ola_os.Updates.{UpdatesManager, pending_executed_transactions_len}

-- A reason is the bytes of its string.
pub data SealResolution : Type 0 where
  no_seal include_and_seal exclude_and_seal : SealResolution
  unexecutable : List ℕ → SealResolution

unfoldable pub stricter : SealResolution → SealResolution → SealResolution
stricter (unexecutable reason) other = unexecutable reason
stricter no_seal (unexecutable reason) = unexecutable reason
stricter include_and_seal (unexecutable reason) = unexecutable reason
stricter exclude_and_seal (unexecutable reason) = unexecutable reason
stricter exclude_and_seal no_seal = exclude_and_seal
stricter exclude_and_seal include_and_seal = exclude_and_seal
stricter exclude_and_seal exclude_and_seal = exclude_and_seal
stricter no_seal exclude_and_seal = exclude_and_seal
stricter include_and_seal exclude_and_seal = exclude_and_seal
stricter include_and_seal no_seal = include_and_seal
stricter include_and_seal include_and_seal = include_and_seal
stricter no_seal include_and_seal = include_and_seal
stricter no_seal no_seal = no_seal

-- `SealResolution::should_seal`
unfoldable pub should_seal : SealResolution → Bool
should_seal no_seal = false
should_seal include_and_seal = true
should_seal exclude_and_seal = true
should_seal (unexecutable reason) = false

pub record SealData : Type 0 where
  pub execution_metrics : ExecutionMetrics
  pub cumulative_size : ℕ
  pub writes_metrics : DeduplicatedWritesMetrics

-- What is used of `f64`: `as f64`, `*`, `round` and `as usize`.
pub record Float64 : Type 1 where
  pub f64 : Type 0
  pub from_nat : ℕ → f64
  pub mul : f64 → f64 → f64
  pub round : f64 → f64
  pub to_usize : f64 → ℕ

-- `TX_ENCODING_SPACE` and the limits of `GEOMETRY_CONFIG`.
abbrev pub tx_encoding_space : ℕ
tx_encoding_space = 33554432

abbrev pub limit_for_initial_writes : ℕ
limit_for_initial_writes = 4765

abbrev pub limit_for_repeated_writes : ℕ
limit_for_repeated_writes = 7564

-- `millis_since` of utils/src/time.rs at the time `now` in milliseconds: a `u128` difference, cut
-- to a `u64`.
unfoldable pub millis_since : ℕ → ℕ → ℕ
millis_since now since = (now + u128_mod - since * 1000) % u128_mod % u64_mod

module _ (F : Float64) where
  -- The fields of `SequencerConfig` that are read.
  pub record SequencerConfig : Type 0 where
    pub miniblock_commit_deadline_ms : ℕ
    pub block_commit_deadline_ms : ℕ
    pub reject_tx_at_geometry_percentage : F.f64
    pub close_block_at_geometry_percentage : F.f64
    pub transaction_slots : ℕ

  -- `(limit as f64 * percentage).round() as usize`
  unfoldable pub bound : ℕ → F.f64 → ℕ
  bound limit percentage = F.to_usize (F.round (F.mul (F.from_nat limit) percentage))

  -- A `SealCriterion`: the block's opening time, the number of transactions, the data of the block
  -- and the data of the last transaction.
  abbrev pub SealCriterion : Type 0
  SealCriterion = SequencerConfig → ℕ → ℕ → SealData → SealData → SealResolution

  unfoldable pub slots_criterion : SealCriterion
  slots_criterion config opened tx_count block_data tx_data =
      if leb config.transaction_slots tx_count then include_and_seal else no_seal

  unfoldable pub tx_encoding_size_criterion : List ℕ → SealCriterion
  unfolding bound
  tx_encoding_size_criterion message config opened tx_count block_data tx_data =
      if ltb (bound tx_encoding_space config.reject_tx_at_geometry_percentage)
        tx_data.cumulative_size
      then unexecutable message
      else if ltb tx_encoding_space block_data.cumulative_size
      then exclude_and_seal
      else if ltb (bound tx_encoding_space config.close_block_at_geometry_percentage)
          block_data.cumulative_size
      then include_and_seal
      else no_seal

  -- The criteria that count one metric against a limit.
  unfoldable pub geometry_criterion :
      ℕ → (ExecutionMetrics → DeduplicatedWritesMetrics → ℕ) → List ℕ → SealCriterion
  unfolding bound
  geometry_criterion limit extract message config opened tx_count block_data tx_data =
      let used = extract block_data.execution_metrics block_data.writes_metrics in
      if ltb (bound limit config.reject_tx_at_geometry_percentage)
        (extract tx_data.execution_metrics tx_data.writes_metrics)
      then unexecutable message
      else if leb limit used
      then exclude_and_seal
      else if ltb (bound limit config.close_block_at_geometry_percentage) used
      then include_and_seal
      else no_seal

  unfoldable pub repeated_writes_criterion : List ℕ → SealCriterion
  unfolding geometry_criterion
  repeated_writes_criterion message =
      geometry_criterion limit_for_repeated_writes (λ m writes. writes.repeated_storage_writes)
        message

  unfoldable pub initial_writes_criterion : List ℕ → SealCriterion
  unfolding geometry_criterion
  initial_writes_criterion message =
      geometry_criterion limit_for_initial_writes (λ m writes. writes.initial_storage_writes)
        message

  pub record ConditionalSealer : Type 0 where
    pub config : SequencerConfig
    pub sealers : List SealCriterion

  -- `default_sealers`, with the message of the size criterion.
  unfoldable pub default_sealers : List ℕ → List SealCriterion
  unfolding slots_criterion tx_encoding_size_criterion
  default_sealers message = slots_criterion ∷ tx_encoding_size_criterion message ∷ []

  -- The loop over the sealers, from the resolution so far.
  unfoldable pub strictest :
      List SealCriterion
      → SequencerConfig
      → ℕ
      → ℕ
      → SealData
      → SealData
      → SealResolution
      → SealResolution
  strictest [] config opened tx_count block_data tx_data so_far = so_far
  strictest (s ∷ ss) config opened tx_count block_data tx_data so_far =
      strictest ss config opened tx_count block_data tx_data
        (stricter so_far (s config opened tx_count block_data tx_data))

  -- `ConditionalSealer::should_seal_l1_batch`
  unfoldable pub resolution : ConditionalSealer → ℕ → ℕ → SealData → SealData → SealResolution
  unfolding strictest
  resolution sealer opened tx_count block_data tx_data =
      strictest sealer.sealers sealer.config opened tx_count block_data tx_data no_seal

  -- A `SealerFn` reads the clock, so it takes the time in milliseconds.
  abbrev pub SealerFn : Type 0
  SealerFn = ℕ → UpdatesManager → Bool

  pub record SealManager : Type 0 where
    pub conditional_sealer : Option ConditionalSealer
    pub unconditional_sealers : List SealerFn
    pub miniblock_sealers : List SealerFn

  unfoldable pub timeout_batch_sealer : ℕ → SealerFn
  timeout_batch_sealer deadline now manager =
      ltb deadline (millis_since now manager.batch_timestamp)

  unfoldable pub timeout_miniblock : ℕ → SealerFn
  timeout_miniblock deadline now manager =
      not (is_empty manager.miniblock.executed_transactions)
      && ltb deadline (millis_since now manager.miniblock.timestamp)

  -- `timeout_miniblock_sealer` panics on a deadline below a second.
  unfoldable pub timeout_miniblock_sealer : ℕ → Outcome SealerFn
  timeout_miniblock_sealer deadline =
      if ltb deadline 1000 then panics else returns (timeout_miniblock deadline)

  -- `SealManager::new`
  unfoldable pub new : List ℕ → SequencerConfig → Outcome SealManager
  unfolding timeout_miniblock_sealer timeout_batch_sealer default_sealers
  new message config = do
    miniblock ← timeout_miniblock_sealer config.miniblock_commit_deadline_ms
    returns (record {
      conditional_sealer = some (record { config = config; sealers = default_sealers message });
      unconditional_sealers = timeout_batch_sealer config.block_commit_deadline_ms ∷ [];
      miniblock_sealers = miniblock ∷ [];
    })

  abbrev pub any_sealer : List SealerFn → ℕ → UpdatesManager → Bool
  any_sealer [] now manager = false
  any_sealer (s ∷ ss) now manager = s now manager || any_sealer ss now manager

  unfoldable pub should_seal_l1_batch_unconditionally : SealManager → ℕ → UpdatesManager → Bool
  should_seal_l1_batch_unconditionally m now manager =
      not (pending_executed_transactions_len manager == 0)
      && any_sealer m.unconditional_sealers now manager

  unfoldable pub should_seal_miniblock : SealManager → ℕ → UpdatesManager → Bool
  should_seal_miniblock m now manager = any_sealer m.miniblock_sealers now manager

  unfoldable pub should_seal_l1_batch : SealManager → ℕ → ℕ → SealData → SealData → SealResolution
  unfolding resolution
  should_seal_l1_batch m opened tx_count block_data tx_data = elim m.conditional_sealer [
    | some sealer ↦ resolution sealer opened tx_count block_data tx_data
    | none ↦ no_seal
  ]
