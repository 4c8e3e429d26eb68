-- ===== src/Sequencer/Outcomes.antt =====
-- The resolution of an executed transaction and its inclusion (ola_core/src/sequencer/sequencer.rs).
use ola_os.Base.{
  ℕ, ◌≡◌, refl, List, [], ◌∷◌, ◌++◌, Outcome, returns, >>=-eq-returns, map, ◌∙◌, ap, sym,
  append_assoc,
}
use mathlib.Core.List.{map-append}
use ola_os.Types.Tx.{Transaction}
use ola_os.Types.Execution.{VmTxExeResult, ExecutionMetrics}
use ola_os.TxData.{Value}
use ola_os.TxData.Size.{encoded_transaction_size_returns}
use ola_os.TxData.{encoded_transaction_size}
use ola_os.Types.Tx
use ola_os.Dedup.{StorageWritesDeduplicator, apply_and_rollback, apply}
use ola_os.Updates.{
  UpdatesManager, extend_from_executed_transaction, extend_miniblock_from_executed, add_executed,
}
use ola_os.Updates.Pending.{all_transactions}
use ola_os.Updates.Runs.{transaction_of}
use ola_os.Seal.{Float64, SealManager, SealResolution}
use ola_os.Sequencer.Resolve.{
  TxExecutionResult, success, rejected_by_vm, bootloader_out_of_gas_for_tx,
  bootloader_out_of_gas_for_block_tip, seal_resolution, decide, include,
}
use ola_os.Sequencer.Calm.{IsSoundTx}

abbrev pub IsSuccess : TxExecutionResult → Type 0
IsSuccess (success tx_result tx_metrics tip_metrics tip_result) = Unit
IsSuccess (rejected_by_vm reason) = ⊥
IsSuccess bootloader_out_of_gas_for_tx = ⊥
IsSuccess bootloader_out_of_gas_for_block_tip = ⊥

returned :
    (u v : UpdatesManager) (q r : SealResolution)
    → ◌≡◌ {A = Outcome (UpdatesManager × SealResolution)} (returns (u, q)) (returns (v, r))
    → v ≡ u
returned u v q r e = cc

module _ (F : Float64) (sealer : SealManager F) (encode : List Value → List ℕ)
    (hash_bytecode : List ℕ → ℕ) (hex_encode : List ℕ → List ℕ) where
  -- The resolution changes nothing of the updates but the deduplicator's state.
  pub seal_resolution-same :
      (tx : Transaction) (result : TxExecutionResult) (u v : UpdatesManager) (r : SealResolution)
      → seal_resolution F sealer encode hash_bytecode hex_encode tx result u ≡ returns (v, r)
      → (d : StorageWritesDeduplicator) × (v ≡ record u { storage_writes_deduplicator = d })
  unfolding seal_resolution decide
  seal_resolution-same tx bootloader_out_of_gas_for_tx u v r e =
      (u.storage_writes_deduplicator, returned u v _ r e)
  seal_resolution-same tx bootloader_out_of_gas_for_block_tip u v r e =
      (u.storage_writes_deduplicator, returned u v _ r e)
  seal_resolution-same tx (rejected_by_vm reason) u v r e =
      (u.storage_writes_deduplicator, returned u v _ r e)
  seal_resolution-same tx (success tx_result tx_metrics tip_metrics tip_result) u v r e =
      let (size, sized, decided) =
        >>=-eq-returns (encoded_transaction_size encode hash_bytecode tx) _ e in
      (
        (apply_and_rollback (tx_result.result.logs.storage_logs ++ tip_result.logs.storage_logs)
            u.storage_writes_deduplicator).0,
        returned _ v _ r decided,
      )

-- The included transaction is the last one of the updates.
pub include-last :
    (encode : List Value → List ℕ) (hash_bytecode : List ℕ → ℕ) (tx : Transaction)
    (result : TxExecutionResult) (u : UpdatesManager)
    → IsSoundTx tx
    → IsSuccess result
    → (v : UpdatesManager) × (include encode hash_bytecode tx result u ≡ returns v)
      × (map transaction_of (all_transactions v)
          ≡ map transaction_of (all_transactions u) ++ tx ∷ [])
      × (v.l1_batch ≡ u.l1_batch)
      × (v.miniblock.timestamp ≡ u.miniblock.timestamp)
unfolding include extend_from_executed_transaction extend_miniblock_from_executed add_executed
include-last encode hash_bytecode tx (success r metrics m r') u h s =
    let (size, sized) = encoded_transaction_size_returns encode hash_bytecode tx h.0 in
    let closed = u.l1_batch.executed_transactions in
    let open_ones = u.miniblock.executed_transactions in
    (
      record u {
        storage_writes_deduplicator =
            apply r.result.logs.storage_logs u.storage_writes_deduplicator;
        miniblock = add_executed hash_bytecode tx r metrics size h.1 u.miniblock;
      },
      rw (sized, h.2) refl,
      ap (map transaction_of) (sym (append_assoc closed open_ones _))
          ∙ map-append transaction_of (closed ++ open_ones) _,
      refl,
      refl,
    )
include-last encode hash_bytecode tx (rejected_by_vm reason) u h s = absurd s
include-last encode hash_bytecode tx bootloader_out_of_gas_for_tx u h s = absurd s
include-last encode hash_bytecode tx bootloader_out_of_gas_for_block_tip u h s = absurd s

told-added :
    (hash_bytecode : List ℕ → ℕ) (tx : Transaction) (r : VmTxExeResult) (metrics : ExecutionMetrics)
    (size h : ℕ) (u : UpdatesManager) (d : StorageWritesDeduplicator)
    → map transaction_of (
        all_transactions (record u {
          storage_writes_deduplicator = d;
          miniblock = add_executed hash_bytecode tx r metrics size h u.miniblock;
        }))
      ≡ map transaction_of (all_transactions u) ++ tx ∷ []
unfolding add_executed
told-added hash_bytecode tx r metrics size h u d =
    let closed = u.l1_batch.executed_transactions in
    let open_ones = u.miniblock.executed_transactions in
    ap (map transaction_of) (sym (append_assoc closed open_ones _))
    ∙ map-append transaction_of (closed ++ open_ones) _

-- What is included, if it is, is the last transaction of the updates.
pub include-told :
    (encode : List Value → List ℕ) (hash_bytecode : List ℕ → ℕ) (tx : Transaction)
    (result : TxExecutionResult) (u v : UpdatesManager)
    → include encode hash_bytecode tx result u ≡ returns v
    → (map transaction_of (all_transactions v) ≡ map transaction_of (all_transactions u) ++ tx ∷ [])
      × (v.l1_batch ≡ u.l1_batch)
unfolding include extend_from_executed_transaction extend_miniblock_from_executed
include-told encode hash_bytecode tx (success r metrics m r') u v e =
    let (miniblock, added, all) =
      >>=-eq-returns (extend_miniblock_from_executed encode hash_bytecode tx r metrics u.miniblock)
        _ e in
    let (size, sized, rest) =
      >>=-eq-returns (encoded_transaction_size encode hash_bytecode tx) _ added in
    let (h, hashed, done) = >>=-eq-returns (Tx.hash tx) _ rest in
    let d = apply r.result.logs.storage_logs u.storage_writes_deduplicator in
    let same : v ≡ record u {
      storage_writes_deduplicator = d;
      miniblock = add_executed hash_bytecode tx r metrics size h u.miniblock;
    } =
      cc in
    (
      ap (λ x. map transaction_of (all_transactions x)) same
          ∙ told-added hash_bytecode tx r metrics size h u d,
      ap (λ x. x.l1_batch) same,
    )
include-told encode hash_bytecode tx (rejected_by_vm reason) u v e = cc
include-told encode hash_bytecode tx bootloader_out_of_gas_for_tx u v e = cc
include-told encode hash_bytecode tx bootloader_out_of_gas_for_block_tip u v e = cc
