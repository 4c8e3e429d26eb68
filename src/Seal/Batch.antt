-- ===== src/Seal/Batch.antt =====
-- The decision of the default criteria after a transaction
-- (ola_core/src/sequencer/seal_criteria/conditional_sealer.rs).
use ola_os.Base.{ℕ, ◌≤◌, ◌<◌, ◌≡◌, ◌≢◌, ◌↔◌, List, arith}
use ola_os.Seal.{
  initial_writes_criterion, repeated_writes_criterion, geometry_criterion, limit_for_initial_writes,
  limit_for_repeated_writes, SealResolution, no_seal, exclude_and_seal, unexecutable, stricter,
  SealData, Float64, tx_encoding_space, SequencerConfig, bound, slots_criterion,
  tx_encoding_size_criterion, default_sealers, strictest, resolution,
}

module _ (F : Float64) (message : List ℕ) (config : SequencerConfig F) (opened tx_count : ℕ)
    (block_data tx_data : SealData) where
  abbrev pub after_transaction : SealResolution
  after_transaction =
      resolution F (record { config = config; sealers = default_sealers F message }) opened tx_count
        block_data tx_data

  -- The largest transaction, and the size from which a batch is full.
  abbrev pub reject_bound : ℕ
  reject_bound = bound F tx_encoding_space config.reject_tx_at_geometry_percentage

  abbrev pub close_bound : ℕ
  close_bound = bound F tx_encoding_space config.close_block_at_geometry_percentage

  -- A transaction is rejected exactly if it is larger than the reject bound. If it is kept, it is
  -- put off to the next batch exactly if the batch with it is larger than the encoding space. If it
  -- is included, the batch stays open exactly while it has free slots and is not larger than the
  -- close bound.
  pub default_sealers_decide :
      ((after_transaction ≡ unexecutable message) ↔ (reject_bound < tx_data.cumulative_size))
      × ((after_transaction ≡ exclude_and_seal) ↔ (
          (tx_data.cumulative_size ≤ reject_bound)
          × (tx_encoding_space < block_data.cumulative_size)))
      × ((after_transaction ≡ no_seal) ↔ (
          (tx_data.cumulative_size ≤ reject_bound)
          × (block_data.cumulative_size ≤ tx_encoding_space)
          × (block_data.cumulative_size ≤ close_bound)
          × (tx_count < config.transaction_slots)))
  unfolding resolution strictest default_sealers slots_criterion tx_encoding_size_criterion stricter
  default_sealers_decide = (ground arith, ground arith, ground arith)

  -- The first transaction of a batch is never put off, so a batch that is sealed has a transaction,
  -- if the reject bound is within the encoding space.
  pub first_transaction_kept :
      reject_bound ≤ tx_encoding_space
      → block_data.cumulative_size ≡ tx_data.cumulative_size
      → after_transaction ≢ exclude_and_seal
  unfolding resolution strictest default_sealers slots_criterion tx_encoding_size_criterion stricter
  first_transaction_kept fits alone e = ground arith

-- The decision on a count against a limit, for the block and for its last transaction.
abbrev pub Decides :
    (F : Float64) → List ℕ → SequencerConfig F → ℕ → ℕ → ℕ → SealResolution → Type 0
Decides F message config limit block tx answer =
    ((answer ≡ unexecutable message) ↔ (bound F limit config.reject_tx_at_geometry_percentage < tx))
    × ((answer ≡ exclude_and_seal)
        ↔ ((tx ≤ bound F limit config.reject_tx_at_geometry_percentage) × (limit ≤ block)))
    × ((answer ≡ no_seal) ↔ (
        (tx ≤ bound F limit config.reject_tx_at_geometry_percentage)
        × (block < limit)
        × (block ≤ bound F limit config.close_block_at_geometry_percentage)))

-- A criterion on initial or repeated writes rejects a transaction exactly if its writes are above
-- the reject bound of the limit. A batch that keeps it is closed before the transaction exactly if
-- its writes have reached the limit, and stays open exactly if they are below the limit and not
-- above the close bound.
pub writes_criteria_decide :
    (F : Float64) (message : List ℕ) (config : SequencerConfig F) (opened tx_count : ℕ)
    (block_data tx_data : SealData)
    → Decides F message config limit_for_initial_writes
        block_data.writes_metrics.initial_storage_writes
        tx_data.writes_metrics.initial_storage_writes
        (initial_writes_criterion F message config opened tx_count block_data tx_data)
      × Decides F message config limit_for_repeated_writes
          block_data.writes_metrics.repeated_storage_writes
          tx_data.writes_metrics.repeated_storage_writes
          (repeated_writes_criterion F message config opened tx_count block_data tx_data)
unfolding initial_writes_criterion repeated_writes_criterion geometry_criterion
writes_criteria_decide F message config opened tx_count block_data tx_data =
    ((ground arith, ground arith, ground arith), (ground arith, ground arith, ground arith))
