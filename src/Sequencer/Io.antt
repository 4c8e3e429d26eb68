-- ===== src/Sequencer/Io.antt =====
-- The interfaces that the sequencer drives: `SequencerIO` (ola_core/src/sequencer/io/mod.rs), the
-- batch executor, the object store, the clock and the stop signal; and the waiting loops of
-- ola_core/src/sequencer/sequencer.rs.
use ola_os.Base.{
  ℕ, zero, suc, Bool, true, false, Option, none, some, List, Outcome, returns, panics,
}
use ola_os.Types.Tx.{Transaction, ProtocolUpgradeTx}
use ola_os.Updates.{UpdatesManager, push_miniblock, BaseSystemContractsHashes}
use ola_os.Async.{Reply, ready, canceled, panicked, waiting, Async, ◌>>=◌, ◌>>◌, pure}
use ola_os.Sequencer.Resolve.{TxExecutionResult}

-- The parameters of a batch that the sequencer reads.
pub record L1BatchParams : Type 0 where
  pub block_number : ℕ
  pub block_timestamp : ℕ
  pub base_system_contracts_hashes : BaseSystemContractsHashes
  pub protocol_version : ℕ

pub record MiniblockReexecuteData : Type 0 where
  pub number : ℕ
  pub timestamp : ℕ
  pub txs : List Transaction

pub record PendingBatchData : Type 0 where
  pub params : L1BatchParams
  pub pending_miniblocks : List MiniblockReexecuteData

-- A call that changes the world, and may panic.
abbrev pub Effect : Type 0 → Type 0 → Type 0
Effect W A = W → Outcome (W × A)

-- `SequencerIO`, the handle of the batch executor with its builder, the object store, the clock in
-- milliseconds and the stop receiver. `B` is what the executor leaves of a batch.
pub record SequencerIo (W B : Type 0) : Type 0 where
  pub stop_requested : Effect W Bool
  pub now : Effect W ℕ
  pub execute_tx : Transaction → ℕ → Effect W TxExecutionResult
  pub init_batch : L1BatchParams → Effect W (Unit {0})
  pub finish_batch : ℕ → Effect W B
  pub put_witness : B → Effect W (Unit {0})
  pub load_pending_batch : Effect W (Option PendingBatchData)
  pub wait_for_new_batch_params : Effect W (Option L1BatchParams)
  pub wait_for_new_miniblock_params : ℕ → Effect W (Option ℕ)
  pub wait_for_next_tx : Effect W (Option Transaction)
  pub rollback : Transaction → Effect W (Unit {0})
  pub reject : Transaction → List ℕ → Effect W (Unit {0})
  pub seal_miniblock : UpdatesManager → Effect W (Unit {0})
  pub seal_l1_batch : B → UpdatesManager → L1BatchParams → Effect W (Unit {0})
  pub load_previous_batch_version_id : Effect W (Option ℕ)
  pub load_upgrade_tx : ℕ → Effect W (Option ProtocolUpgradeTx)

abbrev pub reply : {W A : Type 0} → Outcome (W × A) → Reply W A
reply (returns (w, a)) = ready w a
reply panics = panicked

abbrev pub act : {W A : Type 0} → Effect W A → Async W A
act m w = reply (m w)

abbrev pub failed : {W A : Type 0} → Async W A
failed w = panicked

-- `Err(Error::Canceled)` or `Ok(())`.
abbrev pub cancel_if : {W : Type 0} → Bool → Async W (Unit {0})
cancel_if true w = canceled w
cancel_if false w = ready w tt

module _ {W B : Type 0} (io : SequencerIo W B) where
  unfoldable pub check_if_cancelled : Async W (Unit {0})
  check_if_cancelled = act io.stop_requested >>= cancel_if

  unfoldable pub wait_for_new_batch_params : ℕ → Async W L1BatchParams
  wait_for_new_batch_params zero = λ w. waiting
  wait_for_new_batch_params (suc n) = do
    found ← act io.wait_for_new_batch_params
    elim found [
      | some params ↦ pure params
      | none ↦ check_if_cancelled >> wait_for_new_batch_params n
    ]

  unfoldable pub wait_for_new_miniblock_params : ℕ → ℕ → Async W ℕ
  wait_for_new_miniblock_params zero prev_timestamp = λ w. waiting
  wait_for_new_miniblock_params (suc n) prev_timestamp = do
    found ← act (io.wait_for_new_miniblock_params prev_timestamp)
    elim found [
      | some params ↦ pure params
      | none ↦ check_if_cancelled >> wait_for_new_miniblock_params n prev_timestamp
    ]

  -- The open miniblock is sealed, and the next one opened.
  unfoldable pub close_miniblock : ℕ → UpdatesManager → Async W UpdatesManager
  unfolding wait_for_new_miniblock_params
  close_miniblock n u = do
    act (io.seal_miniblock u)
    new_timestamp ← wait_for_new_miniblock_params n u.miniblock.timestamp
    pure (push_miniblock new_timestamp u)

  unfoldable pub close_if : Bool → ℕ → UpdatesManager → Async W UpdatesManager
  unfolding close_miniblock
  close_if true n u = close_miniblock n u
  close_if false n u = pure u
