-- ===== src/Seal/Timeout.antt =====
-- Sealing by timeout (ola_core/src/sequencer/seal_criteria/mod.rs, utils/src/time.rs).
use ola_os.Base.{
  ℕ, ◌-◌, ◌*◌, ◌/◌, ◌≤◌, ◌<◌, ◌≡◌, ◌≢◌, ◌↔◌, ◌⊎◌, inl, inr, true, false, List, [], ◌∷◌, arith, ltb,
  Bool-cases, some, returns, panics, is_empty,
}
use ola_os.Base.Words.{u64_mod}
use ola_os.Updates.{UpdatesManager, pending_executed_transactions_len}
use ola_os.Seal.{
  Float64, millis_since, SequencerConfig, default_sealers, SealManager, timeout_batch_sealer,
  timeout_miniblock, timeout_miniblock_sealer, new, should_seal_l1_batch_unconditionally,
  should_seal_miniblock,
}

-- Milliseconds do not wrap while the clock stays a `u64` and the start is past.
millis_since_lem :
    (now since : ℕ)
    → since * 1000 ≤ now
    → now < u64_mod
    → millis_since now since ≡ now - since * 1000
unfolding millis_since
millis_since_lem now since past small = omega arith

module _ (F : Float64) (message : List ℕ) (config : SequencerConfig F) where
  abbrev pub made_manager : SealManager F
  made_manager = record {
    conditional_sealer = some (record { config = config; sealers = default_sealers F message });
    unconditional_sealers = timeout_batch_sealer F config.block_commit_deadline_ms ∷ [];
    miniblock_sealers = timeout_miniblock F config.miniblock_commit_deadline_ms ∷ [];
  }

  pub new_long :
      1000 ≤ config.miniblock_commit_deadline_ms → new F message config ≡ returns made_manager
  unfolding new timeout_miniblock_sealer
  new_long long = ground arith

  -- A manager is made exactly if the deadline of the miniblock is at least a second.
  pub new-cases :
      ((config.miniblock_commit_deadline_ms < 1000) × (new F message config ≡ panics))
      ⊎ ((1000 ≤ config.miniblock_commit_deadline_ms)
          × (m : SealManager F) × (new F message config ≡ returns m))
  unfolding new timeout_miniblock_sealer
  new-cases = elim (Bool-cases (ltb config.miniblock_commit_deadline_ms 1000)) [
    | inl short ↦ inl (ground arith, ground arith)
    | inr long ↦ inr (ground arith, made_manager, new_long (ground arith))
  ]

  module _ (m : SealManager F) (made : new F message config ≡ returns m) (now : ℕ)
      (u : UpdatesManager) (small : now < u64_mod) where
    sealers_lem :
        (1000 ≤ config.miniblock_commit_deadline_ms)
        × (m.unconditional_sealers ≡ timeout_batch_sealer F config.block_commit_deadline_ms ∷ [])
        × (m.miniblock_sealers ≡ timeout_miniblock F config.miniblock_commit_deadline_ms ∷ [])
    unfolding new timeout_miniblock_sealer
    sealers_lem = elim (Bool-cases (ltb config.miniblock_commit_deadline_ms 1000)) [
      | inl short ↦ ground (arith, made)
      | inr long ↦ ground (arith, made, new_long (ground arith))
    ]

    -- A batch that does not wait for another transaction is sealed exactly if it has one and it is
    -- older than its deadline.
    pub should_seal_l1_batch_unconditionally_lem :
        u.batch_timestamp * 1000 ≤ now
        → (should_seal_l1_batch_unconditionally F m now u ≡ true) ↔ (
            (pending_executed_transactions_len u ≢ 0)
            × (config.block_commit_deadline_ms < now - u.batch_timestamp * 1000))
    unfolding should_seal_l1_batch_unconditionally timeout_batch_sealer
    should_seal_l1_batch_unconditionally_lem past =
        let (least, batch, miniblock) = sealers_lem in
        let age = millis_since_lem now u.batch_timestamp past small in
        rw (batch, age) (ground arith)

    -- A miniblock is sealed exactly if it has a transaction and it is older than its deadline, and
    -- then the current second is after its timestamp, so that the next miniblock's can differ.
    pub should_seal_miniblock_lem :
        u.miniblock.timestamp * 1000 ≤ now
        → ((should_seal_miniblock F m now u ≡ true) ↔ (
            (is_empty u.miniblock.executed_transactions ≡ false)
            × (config.miniblock_commit_deadline_ms < now - u.miniblock.timestamp * 1000)
            × (u.miniblock.timestamp < now / 1000)))
    unfolding should_seal_miniblock timeout_miniblock
    should_seal_miniblock_lem past =
        let (least, batch, miniblock) = sealers_lem in
        let age = millis_since_lem now u.miniblock.timestamp past small in
        rw (miniblock, age) (ground arith)
