-- ===== src/Sequencer/Upgrade.antt =====
-- The transaction that upgrades the protocol opens a batch (`process_upgrade_tx` in
-- ola_core/src/sequencer/sequencer.rs).
use ola_os.Base.{
  ℕ, ◌≡◌, sym, subst, Option, none, some, List, Outcome, returns, panics, assert, ◌==◌,
}
use ola_os.Types.Tx.{Transaction, ProtocolUpgradeTx, from_upgrade}
use ola_os.Types.Execution.{TxExecutionStatus}
use ola_os.TxData.{Value}
use ola_os.Updates.{UpdatesManager, pending_executed_transactions_len}
use ola_os.Seal.{
  Float64, SealManager, SealResolution, no_seal, include_and_seal, exclude_and_seal, unexecutable,
}
use ola_os.Async.{Holds, Holds-follow}
use ola_os.Sequencer.Io.{SequencerIo}
use ola_os.Sequencer.Resolve.{
  TxExecutionResult, success, rejected_by_vm, bootloader_out_of_gas_for_tx,
  bootloader_out_of_gas_for_block_tip, include, include_upgrade,
}
use ola_os.Sequencer.Rounds.{process_one_tx, conclude_upgrade, process_upgrade_tx, process_l1_batch}
use ola_os.Sequencer.Calm.{Holds-lift, Holds-lifted}
use ola_os.Sequencer.Recorded.{Trace, recorded, note_served}
use ola_os.Sequencer.Accounts.{Book, include-Book, process_one_tx-Book}
use ola_os.Sequencer.Batches.{process_rounds-Book}

-- The transaction that opens the batch, if any.
abbrev pub opening : Option ProtocolUpgradeTx → Option Transaction
opening none = none
opening (some upgrade) = some (from_upgrade upgrade)

succeeded :
    (s : TxExecutionStatus) (x : Outcome UpdatesManager) (v : UpdatesManager)
    → elim s [ TxExecutionStatus.success ↦ x | TxExecutionStatus.failure ↦ panics ] ≡ returns v
    → x ≡ returns v
succeeded TxExecutionStatus.success x v e = e
succeeded TxExecutionStatus.failure x v e = cc

module _ (start : UpdatesManager) (encode : List Value → List ℕ) (hash_bytecode : List ℕ → ℕ) where
  include_upgrade-Book :
      (t : Trace) (u v : UpdatesManager) (tx : Transaction) (result : TxExecutionResult)
      → Book start t u
      → include_upgrade encode hash_bytecode tx result u ≡ returns v
      → Book start (note_served (some tx) t) v
  unfolding include_upgrade
  include_upgrade-Book t u v tx (success r m tip_metrics tip) b e =
      include-Book start encode hash_bytecode t u v tx (success r m tip_metrics tip) b
        (succeeded r.status (include encode hash_bytecode tx (success r m tip_metrics tip) u) v e)
  include_upgrade-Book t u v tx (rejected_by_vm reason) b e = cc
  include_upgrade-Book t u v tx bootloader_out_of_gas_for_tx b e = cc
  include_upgrade-Book t u v tx bootloader_out_of_gas_for_block_tip b e = cc

  module _ (F : Float64) (sealer : SealManager F) (hex_encode : List ℕ → List ℕ) {W B : Type 0}
      (io : SequencerIo W B) where
    conclude_upgrade-Book :
        (t : Trace) (u : UpdatesManager) (tx : Transaction) (r : SealResolution)
        (result : TxExecutionResult) (w : W)
        → Book start t u
        → Holds
            (λ s v. Book start s.1 v)
            (conclude_upgrade F sealer encode hash_bytecode hex_encode
              (recorded io)
              tx
              r
              result
              u
              (w, note_served (some tx) t))
    unfolding conclude_upgrade
    conclude_upgrade-Book t u tx no_seal result w b =
        Holds-lifted (λ s v. Book start s.1 v) (include_upgrade encode hash_bytecode tx result u) _
          (λ v ran. include_upgrade-Book t u v tx result b ran)
    conclude_upgrade-Book t u tx include_and_seal result w b =
        Holds-lifted (λ s v. Book start s.1 v) (include_upgrade encode hash_bytecode tx result u) _
          (λ v ran. include_upgrade-Book t u v tx result b ran)
    conclude_upgrade-Book t u tx exclude_and_seal result w b = tt
    conclude_upgrade-Book t u tx (unexecutable reason) result w b = tt

    process_upgrade_tx-Book :
        (t : Trace) (u : UpdatesManager) (upgrade : ProtocolUpgradeTx) (w : W)
        → Book start t u
        → Holds
            (λ s v. Book start s.1 v)
            (process_upgrade_tx F sealer encode hash_bytecode hex_encode
              (recorded io)
              upgrade
              u
              (w, note_served (some (from_upgrade upgrade)) t))
    unfolding process_upgrade_tx
    process_upgrade_tx-Book t u upgrade w b =
        let tx = from_upgrade upgrade in
        let noted = note_served (some tx) t in
        Holds-lift (λ s v. Book start s.1 v) (assert (pending_executed_transactions_len u == 0))
          (w, noted) _
          (λ alone e.
            Holds-follow (λ s a. Book start t a.0 × (s.1 ≡ noted)) (λ s v. Book start s.1 v)
              (process_one_tx F sealer encode hash_bytecode hex_encode (recorded io) u tx
                (w, noted))
              _
              (process_one_tx-Book start encode hash_bytecode F sealer hex_encode io t noted u tx w
                b)
              (λ s a h.
                subst
                  (λ t'.
                    Holds (λ s' v. Book start s'.1 v)
                      (conclude_upgrade F sealer encode hash_bytecode hex_encode (recorded io) tx
                        a.1 a.2 a.0 (s.0, t')))
                  (sym h.1) (conclude_upgrade-Book t a.0 tx a.1 a.2 s.0 h.0)))

    -- The rounds of a batch with what opens it.
    pub process_l1_batch-Book :
        (n : ℕ) (t : Trace) (u : UpdatesManager) (upgrade : Option ProtocolUpgradeTx) (w : W)
        → Book start t u
        → Holds
            (λ s v. Book start s.1 v)
            (process_l1_batch F sealer encode hash_bytecode hex_encode
              (recorded io)
              n
              upgrade
              u
              (w, note_served (opening upgrade) t))
    unfolding process_l1_batch
    process_l1_batch-Book n t u none w b =
        process_rounds-Book start encode hash_bytecode F sealer hex_encode io n u w t b
    process_l1_batch-Book n t u (some upgrade) w b =
        Holds-follow (λ s v. Book start s.1 v) (λ s v. Book start s.1 v)
          (process_upgrade_tx F sealer encode hash_bytecode hex_encode (recorded io) upgrade u
            (w, note_served (some (from_upgrade upgrade)) t))
          _ (process_upgrade_tx-Book t u upgrade w b)
          (λ s v b'.
            process_rounds-Book start encode hash_bytecode F sealer hex_encode io n v s.0 s.1 b')
