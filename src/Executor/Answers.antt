-- ===== src/Executor/Answers.antt =====
-- What the batch executor answers (ola_core/src/sequencer/batch_executor/mod.rs), and what the
-- sequencer makes of it (ola_core/src/sequencer/sequencer.rs).
use ola_os.Base.{
  ℕ, ◌%◌, ◌<◌, ◌≤◌, ◌≡◌, ◌≢◌, refl, sym, ◌∙◌, inl, inr, ap, true, none, Option, Option-cases,
  panics, ◌>>=◌, List, [], ◌∷◌, Outcome, returns, length, All, arith, some, >>=-eq-returns,
}
use ola_os.Base.Words.{u64_mod, wrapping_add64}
use ola_os.Types.Tx.{Transaction, L2TxCommonData, ExecuteTransactionCommon, l2, protocol_upgrade}
use ola_os.Types.Tx
use ola_os.Convert.Bytes.{IsByte}
use ola_os.TxData.{Value, encoded_transaction_size}
use ola_os.Updates.{UpdatesManager, pending_txs_encoding_size}
use ola_os.Seal.{
  Float64, SealManager, SealResolution, unexecutable, exclude_and_seal, SequencerConfig,
  default_sealers, bound, tx_encoding_space,
}
use ola_os.Seal.Batch.{first_transaction_kept}
use ola_os.Sequencer.Resolve.{TxExecutionResult, seal_resolution, decide, resolution_of_rejection}
use ola_os.Sequencer.Liveness.{standard-after}
use ola_os.Types.Execution.{TxExecutionStatus, default}
use ola_os.RevertReason.{general, tx_reverted}
use ola_os.Sequencer.Resolve.{success, rejected_by_vm}
use ola_os.Executor.{
  BlockExeManager, BatchResult, Invoked, InvokeResult, ok, error, OlaTapeInitInfo,
  from_storage_events, empty_result, execution_result, tx, tx_of,
}
use ola_os.Executor.Tape.{IsTapeOf, tape_init_info-cases}
use ola_os.Executor.Commands.{
  Command, execute_tx, finish, Response, executed, finished, finish_batch, block_result, send,
  serve, run,
}

-- An L2 transaction that the executor can prepare.
abbrev pub IsPreparedBy : ExecuteTransactionCommon → List ℕ → Type 0
IsPreparedBy (l2 d) calldata =
    (h : ℕ) × (Tx.l2_hash d ≡ returns h)
    × All IsByte d.signature
    × All IsByte calldata
    × (64 ≤ length d.signature)
    × (length calldata % 8 ≡ 0)
IsPreparedBy (protocol_upgrade d) calldata = ⊥

-- Its sender waits for the answer.
abbrev pub IsPrepared : Command → Type 0
IsPrepared (execute_tx t n waits) = IsPreparedBy t.common_data t.execute.calldata × (waits ≡ true)
IsPrepared (finish n waits) = waits ≡ true

-- The result that the machine's answer to a transaction comes to.
pub data IsResultOf (n : ℕ) : Invoked → TxExecutionResult → Type 0 where
  accepts :
      (result : InvokeResult)
      → IsResultOf n (ok result) (
          success
            (record {
              status = TxExecutionStatus.success;
              result = from_storage_events result.storage_access_logs result.events n;
              gas_refunded = 0;
              operator_suggested_refund = 0;
            })
            default
            default
            empty_result)
  refuses :
      (message : List ℕ)
      → IsResultOf n (error message) (rejected_by_vm (tx_reverted (general message [])))

module _ {X : Type 0} (manager : BlockExeManager X) where
  -- What comes of the commands from a state of the machine on: each transaction is invoked, as its
  -- tape, in the state that the one before has left, and the first command that finishes the batch
  -- is the last one, and fails if the machine does.
  pub data Serves : X → List Command → Outcome (List Response) → Type 0 where
    closed : (x : X) → Serves x [] (returns [])
    invoked :
        (x x' : X) (t : Transaction) (d : L2TxCommonData) (h n : ℕ) (info : OlaTapeInitInfo)
        (answer : Invoked) (result : TxExecutionResult) (cs : List Command)
        (o : Outcome (List Response))
        → t.common_data ≡ l2 d
        → Tx.l2_hash d ≡ returns h
        → IsTapeOf d t.execute.calldata h info
        → manager.invoke info x ≡ (x', answer)
        → IsResultOf n answer result
        → Serves x' cs o
        → Serves x (execute_tx t n true ∷ cs) (o >>= λ rs. returns (executed result ∷ rs))
    ended :
        (x : X) (n : ℕ) (b : BatchResult) (cs : List Command)
        → manager.finish_batch x ≡ some b
        → Serves x (finish n true ∷ cs) (returns (finished (block_result b n) ∷ []))
    failed :
        (x : X) (n : ℕ) (cs : List Command)
        → manager.finish_batch x ≡ none
        → Serves x (finish n true ∷ cs) panics

  execution_result-IsResultOf :
      (answer : Invoked) (n : ℕ) → IsResultOf n answer (execution_result answer n)
  unfolding execution_result
  execution_result-IsResultOf (ok result) n = accepts result
  execution_result-IsResultOf (error message) n = refuses message

  -- What the machine is asked for a transaction that can be prepared.
  record Invokes (c : ExecuteTransactionCommon) (calldata : List ℕ) (n : ℕ) (x : X) : Type 0 where
    d : L2TxCommonData
    h : ℕ
    info : OlaTapeInitInfo
    common : c ≡ l2 d
    hashed : Tx.l2_hash d ≡ returns h
    tape : IsTapeOf d calldata h info
    ran :
        tx_of manager c calldata h n x
        ≡ returns ((manager.invoke info x).0, execution_result (manager.invoke info x).1 n)

  tx_of-Invokes :
      (c : ExecuteTransactionCommon) (calldata : List ℕ) (n : ℕ) (x : X)
      → IsPreparedBy c calldata
      → Invokes c calldata n x
  unfolding tx_of
  tx_of-Invokes (l2 d) calldata n x (h, hashed, signed, fits, long, whole) =
      elim (tape_init_info-cases d calldata h signed fits) [
        | inl (inl short, bad) ↦ absurd (omega (arith, short, long))
        | inl (inr ragged, bad) ↦ absurd (ragged whole)
        | inr (long', info, prepared, tape) ↦ record {
          d = d;
          h = h;
          info = info;
          common = refl;
          hashed = hashed;
          tape = tape;
          ran = rw prepared refl;
        }
      ]
  tx_of-Invokes (protocol_upgrade d) calldata n x h = absurd h

  hash_of-l2 :
      (c : ExecuteTransactionCommon) (d : L2TxCommonData) (h : ℕ)
      → c ≡ l2 d
      → Tx.l2_hash d ≡ returns h
      → Tx.hash_of c ≡ returns h
  unfolding Tx.hash_of
  hash_of-l2 c d h e hashed = ap Tx.hash_of e ∙ hashed

  pub tx-returns :
      (t : Transaction) (n : ℕ) (x : X)
      → IsPreparedBy t.common_data t.execute.calldata
      → (r : X × TxExecutionResult) × (tx manager t n x ≡ returns r)
  unfolding tx Tx.hash
  tx-returns t n x prepared =
      let i = tx_of-Invokes t.common_data t.execute.calldata n x prepared in
      let hashed = hash_of-l2 t.common_data i.d i.h i.common i.hashed in
      (
        ((manager.invoke i.info x).0, execution_result (manager.invoke i.info x).1 n),
        rw (hashed, i.ran) refl,
      )

  serve-Serves :
      (commands : List Command) (x : X)
      → All IsPrepared commands
      → Serves x commands (serve manager commands x)
  unfolding serve send tx Tx.hash finish_batch
  serve-Serves [] x prepared = closed x
  serve-Serves (execute_tx t n waits ∷ commands) x prepared =
      let i = tx_of-Invokes t.common_data t.execute.calldata n x prepared.0.0 in
      let answer = manager.invoke i.info x in
      let hashed = hash_of-l2 t.common_data i.d i.h i.common i.hashed in
      rw (prepared.0.1, hashed, i.ran)
        (invoked x answer.0 t i.d i.h n i.info answer.1 (execution_result answer.1 n) commands
          (serve manager commands answer.0) i.common i.hashed i.tape refl
          (execution_result-IsResultOf answer.1 n) (serve-Serves commands answer.0 prepared.1))
  serve-Serves (finish n waits ∷ commands) x prepared =
      elim (Option-cases (manager.finish_batch x)) [
        | inl none_left ↦ rw (prepared.0, none_left) (failed x n commands none_left)
        | inr (b, done) ↦ rw (prepared.0, done) (ended x n b commands done)
      ]

-- While the configuration loads, the machine starts, the transactions can be prepared and each
-- sender waits for its answer, the executor answers exactly as the machine does: each transaction
-- is given to the machine as its tape, in the state that the transactions before it have left, and
-- its answer is the result with the logs under the transaction's index, or the machine's error; the
-- first command that finishes the batch is answered with what the machine then returns, and is the
-- last one. Nothing panics unless the machine fails to finish.
pub run-Serves :
    {N X : Type 0} (manager : BlockExeManager X) (network_config : Option N) (new : N → Option X)
    (config : N) (x : X) (commands : List Command)
    → network_config ≡ some config
    → new config ≡ some x
    → All IsPrepared commands
    → Serves manager x commands (run manager network_config new commands)
unfolding run
run-Serves manager network_config new config x commands loaded started prepared =
    rw (loaded, started) (serve-Serves manager commands x prepared)

resolved :
    (u v : UpdatesManager) (q r : SealResolution)
    → ◌≡◌ {A = Outcome (UpdatesManager × SealResolution)} (returns (u, q)) (returns (v, r))
    → q ≡ r
resolved u v q r e = cc

whole : {m n : ℕ} → ◌≡◌ {A = Outcome ℕ} (returns m) (returns n) → m ≡ n
whole e = cc

differ : {reason : List ℕ} → unexecutable reason ≡ exclude_and_seal → ⊥
differ e = cc

-- Whatever the machine answers, the first transaction of a batch is not put back under the default
-- criteria, if the reject bound is within the encoding space and a transaction's size is a machine
-- word; so a batch that is sealed by its first transaction has it.
pub execution_result-kept :
    (F : Float64) (sealer : SealManager F) (message : List ℕ) (config : SequencerConfig F)
    (encode : List Value → List ℕ) (hash_bytecode : List ℕ → ℕ) (hex_encode : List ℕ → List ℕ)
    (t : Transaction) (answer : Invoked) (n size : ℕ) (u v : UpdatesManager) (r : SealResolution)
    → sealer.conditional_sealer
      ≡ some (record { config = config; sealers = default_sealers F message })
    → bound F tx_encoding_space config.reject_tx_at_geometry_percentage ≤ tx_encoding_space
    → pending_txs_encoding_size u ≡ 0
    → encoded_transaction_size encode hash_bytecode t ≡ returns size
    → size < u64_mod
    → seal_resolution F sealer encode hash_bytecode hex_encode t (execution_result answer n) u
      ≡ returns (v, r)
    → r ≢ exclude_and_seal
unfolding seal_resolution execution_result decide resolution_of_rejection wrapping_add64
execution_result-kept F sealer message config encode hash_bytecode hex_encode t (error text) n size
      u v r standard sane alone sized small e x =
    absurd (differ (resolved u v _ r e ∙ x))
execution_result-kept F sealer message config encode hash_bytecode hex_encode t (ok result) n size u
      v r standard sane alone sized small e x =
    let (size', sized', decided) =
      >>=-eq-returns (encoded_transaction_size encode hash_bytecode t) _ e in
    let same : size' ≡ size = whole (sym sized' ∙ sized) in
    first_transaction_kept F message config _ _ _ _ sane (omega (arith, alone, small, same))
      (sym (standard-after F sealer message config standard _ _ _ _) ∙ resolved _ v _ r decided ∙ x)
