-- ===== src/Sequencer/Excluded.antt =====
-- The updates that a transaction leaves behind that is not included (`process_one_tx` in
-- ola_core/src/sequencer/sequencer.rs).
use ola_os.Base.{ℕ, ◌≡◌, refl, subst, List, ◌++◌, Outcome, returns, >>=-eq-returns}
use ola_os.Types.Tx.{Transaction}
use ola_os.Dedup.Rollback.{IsValid, apply_and_rollback_lem}
use ola_os.TxData.{Value, encoded_transaction_size}
use ola_os.Updates.{UpdatesManager}
use ola_os.Seal.{Float64, SealManager, SealResolution}
use ola_os.Sequencer.Resolve.{
  TxExecutionResult, success, rejected_by_vm, bootloader_out_of_gas_for_tx,
  bootloader_out_of_gas_for_block_tip, seal_resolution, decide,
}

-- Everything but the values that the deduplicator has read first.
pub record IsUnchanged (u v : UpdatesManager) : Type 0 where
  pub batch_timestamp : v.batch_timestamp ≡ u.batch_timestamp
  pub base_system_contract_hashes : v.base_system_contract_hashes ≡ u.base_system_contract_hashes
  pub protocol_version : v.protocol_version ≡ u.protocol_version
  pub l1_batch : v.l1_batch ≡ u.l1_batch
  pub miniblock : v.miniblock ≡ u.miniblock
  pub modified_keys :
      v.storage_writes_deduplicator.modified_keys ≡ u.storage_writes_deduplicator.modified_keys
  pub metrics : v.storage_writes_deduplicator.metrics ≡ u.storage_writes_deduplicator.metrics

unchanged : (u : UpdatesManager) → IsUnchanged u u
unchanged u = record {
  batch_timestamp = refl;
  base_system_contract_hashes = refl;
  protocol_version = refl;
  l1_batch = refl;
  miniblock = refl;
  modified_keys = refl;
  metrics = refl;
}

returned :
    (u v : UpdatesManager) (q r : SealResolution)
    → ◌≡◌ {A = Outcome (UpdatesManager × SealResolution)} (returns (u, q)) (returns (v, r))
    → u ≡ v
returned u v q r e = cc

-- From a valid deduplicator, resolving an executed transaction changes nothing of the updates but
-- the values that the deduplicator has read first, so one that is put back or rejected leaves its
-- batch as it was.
pub seal_resolution-IsUnchanged :
    (F : Float64) (sealer : SealManager F) (encode : List Value → List ℕ)
    (hash_bytecode : List ℕ → ℕ) (hex_encode : List ℕ → List ℕ) (tx : Transaction)
    (result : TxExecutionResult) (u v : UpdatesManager) (r : SealResolution)
    → IsValid u.storage_writes_deduplicator
    → seal_resolution F sealer encode hash_bytecode hex_encode tx result u ≡ returns (v, r)
    → IsUnchanged u v
unfolding seal_resolution decide
seal_resolution-IsUnchanged F sealer encode hash_bytecode hex_encode tx
      (success r metrics tip_metrics tip) u v resolution valid e =
    let (size, sized, decided) =
      >>=-eq-returns (encoded_transaction_size encode hash_bytecode tx) _ e in
    let (keys, counts, block) =
      apply_and_rollback_lem (r.result.logs.storage_logs ++ tip.logs.storage_logs)
        u.storage_writes_deduplicator valid in
    subst (IsUnchanged u) (returned _ v _ resolution decided) (record {
      batch_timestamp = refl;
      base_system_contract_hashes = refl;
      protocol_version = refl;
      l1_batch = refl;
      miniblock = refl;
      modified_keys = keys;
      metrics = counts;
    })
seal_resolution-IsUnchanged F sealer encode hash_bytecode hex_encode tx (rejected_by_vm reason) u v
      r valid e =
    subst (IsUnchanged u) (returned u v _ r e) (unchanged u)
seal_resolution-IsUnchanged F sealer encode hash_bytecode hex_encode tx bootloader_out_of_gas_for_tx
      u v r valid e =
    subst (IsUnchanged u) (returned u v _ r e) (unchanged u)
seal_resolution-IsUnchanged F sealer encode hash_bytecode hex_encode tx
      bootloader_out_of_gas_for_block_tip u v r valid e =
    subst (IsUnchanged u) (returned u v _ r e) (unchanged u)
