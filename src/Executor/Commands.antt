-- ===== src/Executor/Commands.antt =====
-- The commands of the batch executor (ola_core/src/sequencer/batch_executor/mod.rs).
use ola_os.Base.{ℕ, Bool, Option, List, [], ◌∷◌, map, Outcome, returns, ◌>>=◌, ◌>>◌, assert, expect}
use ola_os.Types.Tx.{Transaction}
use ola_os.Types.Log.{StorageLogQuery}
use ola_os.Types.Execution.{VmEvent, VmPartialExecutionResult}
use ola_os.Sequencer.Resolve.{TxExecutionResult}
use ola_os.Executor.{
  BlockExeManager, BatchResult, tx, storage_log_query_from, vm_event_from, from_storage_events,
}

-- `VmBlockResult`, with the fields that `finish_batch` sets.
pub record VmBlockResult : Type 0 where
  pub storage_log_queries : List StorageLogQuery
  pub events : List VmEvent
  pub block_tip_result : VmPartialExecutionResult

-- A command, with whether its sender still waits for the answer when that is sent.
pub data Command : Type 0 where
  execute_tx : Transaction → ℕ → Bool → Command
  finish : ℕ → Bool → Command

-- What is sent back on the channel of a command.
pub data Response : Type 0 where
  executed : TxExecutionResult → Response
  finished : VmBlockResult → Response

unfoldable pub block_result : BatchResult → ℕ → VmBlockResult
unfolding storage_log_query_from vm_event_from from_storage_events
block_result result tx_index_in_l1_batch = record {
  storage_log_queries = map storage_log_query_from result.storage_access_logs;
  events = map vm_event_from result.events;
  block_tip_result = from_storage_events result.block_tip_queries [] tx_index_in_l1_batch;
}

-- `resp.send(..).unwrap()`
unfoldable pub send : Bool → Outcome (Unit {0})
send waits = assert waits

module _ {X : Type 0} (manager : BlockExeManager X) where
  -- `BatchExecutor::finish_batch`
  unfoldable pub finish_batch : ℕ → X → Outcome VmBlockResult
  unfolding block_result
  finish_batch tx_index_in_l1_batch x = do
    result ← expect (manager.finish_batch x)
    returns (block_result result tx_index_in_l1_batch)

  -- The loop of `BatchExecutor::run` over the commands that come until the channel is closed.
  unfoldable pub serve : List Command → X → Outcome (List Response)
  unfolding finish_batch send
  serve [] x = returns []
  serve (execute_tx t tx_index waits ∷ commands) x = do
    (x', result) ← tx manager t tx_index x
    send waits
    responses ← serve commands x'
    returns (executed result ∷ responses)
  serve (finish tx_index waits ∷ commands) x = do
    result ← finish_batch tx_index x
    send waits
    returns (finished result ∷ [])

  -- `BatchExecutor::run`, with what loading the network's configuration and starting the machine
  -- return.
  unfoldable pub run :
      {N : Type 0} → Option N → (N → Option X) → List Command → Outcome (List Response)
  unfolding serve
  run network_config new commands = do
    config ← expect network_config
    block_exe_manager ← expect (new config)
    serve commands block_exe_manager
