-- ===== src/Sequencer/Recorded.antt =====
-- An interface of the sequencer that keeps a record of what it was asked
-- (ola_core/src/sequencer/io/mod.rs): the transactions that it handed out, those that were put back
-- or rejected, and those of the miniblocks that were sealed.
use ola_os.Base.{Option, none, some, List, [], ◌∷◌, ◌++◌, returns, ◌>>=◌}
use ola_os.Types.Tx.{Transaction}
use ola_os.Types.Execution.{TransactionExecutionResult}
use ola_os.Updates.{UpdatesManager}
use ola_os.Sequencer.Io.{SequencerIo, Effect}

pub record Trace : Type 0 where
  pub served : List Transaction
  pub given_back : List Transaction
  pub sealed : List TransactionExecutionResult

abbrev pub no_trace : Trace
no_trace = record { served = []; given_back = []; sealed = [] }

abbrev pub note_served : Option Transaction → Trace → Trace
note_served none t = t
note_served (some tx) t = record t { served = t.served ++ tx ∷ [] }

abbrev pub note_given_back : Transaction → Trace → Trace
note_given_back tx t = record t { given_back = t.given_back ++ tx ∷ [] }

abbrev pub note_sealed : UpdatesManager → Trace → Trace
note_sealed u t = record t { sealed = t.sealed ++ u.miniblock.executed_transactions }

-- A call with a note on its result.
abbrev pub noting : {W A : Type 0} → (A → Trace → Trace) → Effect W A → Effect (W × Trace) A
noting note m (w, t) = do (w', a) ← m w; returns ((w', note a t), a)

abbrev pub quiet : {W A : Type 0} → Effect W A → Effect (W × Trace) A
quiet m = noting (λ a t. t) m

abbrev pub recorded : {W B : Type 0} → SequencerIo W B → SequencerIo (W × Trace) B
recorded io = record {
  stop_requested = quiet io.stop_requested;
  now = quiet io.now;
  execute_tx = λ tx n. quiet (io.execute_tx tx n);
  init_batch = λ p. quiet (io.init_batch p);
  finish_batch = λ n. quiet (io.finish_batch n);
  put_witness = λ b. quiet (io.put_witness b);
  load_pending_batch = quiet io.load_pending_batch;
  wait_for_new_batch_params = quiet io.wait_for_new_batch_params;
  wait_for_new_miniblock_params = λ t. quiet (io.wait_for_new_miniblock_params t);
  wait_for_next_tx = noting note_served io.wait_for_next_tx;
  rollback = λ tx. noting (λ _. note_given_back tx) (io.rollback tx);
  reject = λ tx reason. noting (λ _. note_given_back tx) (io.reject tx reason);
  seal_miniblock = λ u. noting (λ _. note_sealed u) (io.seal_miniblock u);
  seal_l1_batch = λ b u p. quiet (io.seal_l1_batch b u p);
  load_previous_batch_version_id = quiet io.load_previous_batch_version_id;
  load_upgrade_tx = λ v. quiet (io.load_upgrade_tx v);
}

-- A list that is two lists, in their order, put together.
pub data Interleaves : List Transaction → List Transaction → List Transaction → Type 0 where
  neither : Interleaves [] [] []
  left :
      {all xs ys : List Transaction} (tx : Transaction)
      → Interleaves all xs ys
      → Interleaves (all ++ tx ∷ []) (xs ++ tx ∷ []) ys
  right :
      {all xs ys : List Transaction} (tx : Transaction)
      → Interleaves all xs ys
      → Interleaves (all ++ tx ∷ []) xs (ys ++ tx ∷ [])
