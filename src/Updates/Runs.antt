-- ===== src/Updates/Runs.antt =====
-- Any sequence of the updates of a batch (ola_core/src/sequencer/updates/mod.rs).
use ola_os.Base.{
  ℕ, ◌≡◌, refl, sym, ap, ◌∙◌, List, [], ◌∷◌, ◌++◌, append_assoc, append-nil, Outcome, returns,
  ◌>>=◌, All, map,
}
use mathlib.Core.List.{map-append}
use ola_os.Types.Log.{StorageLogQuery}
use ola_os.Types.Tx.{Transaction}
use ola_os.Types.Tx
use ola_os.Types.Execution.{
  TransactionExecutionResult, ExecutionMetrics, VmExecutionLogs, VmTxExeResult, add, add_assoc,
  add-default, add-default_left, add-default_inner, default,
}
use ola_os.Dedup.{apply, process_storage_logs}
use ola_os.TxData.{Value, from_transaction}
use ola_os.TxData.Size.{IsWhole, encoded_transaction_size_returns}
use ola_os.Updates.{
  UpdatesManager, push_miniblock, extend_from_executed_transaction, extend_from_fictive_transaction,
  extend_miniblock_from_executed, extend_miniblock_from_fictive, add_executed,
  pending_execution_metrics,
}
use ola_os.Updates.Pending.{all_transactions, all_logs, push_miniblock_lem, apply-append}

pub data Update : Type 0 where
  executed : Transaction → VmTxExeResult → ExecutionMetrics → Update
  fictive : VmExecutionLogs → Update
  pushed : ℕ → Update

-- What the updates bring.
abbrev pub logs_of : List Update → List StorageLogQuery
logs_of [] = []
logs_of (executed tx r metrics ∷ us) = r.result.logs.storage_logs ++ logs_of us
logs_of (fictive logs ∷ us) = logs.storage_logs ++ logs_of us
logs_of (pushed t ∷ us) = logs_of us

abbrev pub transactions_of : List Update → List Transaction
transactions_of [] = []
transactions_of (executed tx r metrics ∷ us) = tx ∷ transactions_of us
transactions_of (fictive logs ∷ us) = transactions_of us
transactions_of (pushed t ∷ us) = transactions_of us

abbrev pub metrics_of : List Update → ExecutionMetrics
metrics_of [] = default
metrics_of (executed tx r metrics ∷ us) = add metrics (metrics_of us)
metrics_of (fictive logs ∷ us) = metrics_of us
metrics_of (pushed t ∷ us) = metrics_of us

logs_of_cons : (x : Update) (ys : List Update) → logs_of (x ∷ []) ++ logs_of ys ≡ logs_of (x ∷ ys)
logs_of_cons (executed tx r metrics) ys = append_assoc r.result.logs.storage_logs [] (logs_of ys)
logs_of_cons (fictive logs) ys = append_assoc logs.storage_logs [] (logs_of ys)
logs_of_cons (pushed t) ys = refl

transactions_of_cons :
    (x : Update) (ys : List Update)
    → transactions_of (x ∷ []) ++ transactions_of ys ≡ transactions_of (x ∷ ys)
transactions_of_cons (executed tx r metrics) ys = refl
transactions_of_cons (fictive logs) ys = refl
transactions_of_cons (pushed t) ys = refl

metrics_of_cons :
    (a : ExecutionMetrics) (x : Update) (ys : List Update)
    → add a (add (metrics_of (x ∷ [])) (metrics_of ys)) ≡ add a (metrics_of (x ∷ ys))
metrics_of_cons a (executed tx r metrics) ys = ap (add a) (add-default_left metrics (metrics_of ys))
metrics_of_cons a (fictive logs) ys = add-default_inner a (metrics_of ys)
metrics_of_cons a (pushed t) ys = add-default_inner a (metrics_of ys)

-- A transaction that can be encoded, and that has a hash.
abbrev pub IsSound : Update → Type 0
IsSound (executed tx r metrics) = IsWhole (from_transaction tx) × (h : ℕ) × (Tx.hash tx ≡ returns h)
IsSound (fictive logs) = Unit
IsSound (pushed t) = Unit

abbrev pub transaction_of : TransactionExecutionResult → Transaction
transaction_of r = r.transaction

module _ (encode : List Value → List ℕ) (hash_bytecode : List ℕ → ℕ) where
  unfoldable pub update : Update → UpdatesManager → Outcome UpdatesManager
  update (executed tx r metrics) u =
      extend_from_executed_transaction encode hash_bytecode tx r metrics u
  update (fictive logs) u = returns (extend_from_fictive_transaction logs u)
  update (pushed t) u = returns (push_miniblock t u)

  unfoldable pub run : List Update → UpdatesManager → Outcome UpdatesManager
  unfolding update
  run [] u = returns u
  run (x ∷ xs) u = do v ← update x u; run xs v

  -- What a list of updates has added to a batch.
  pub record Gathers (us : List Update) (u v : UpdatesManager) : Type 0 where
    pub logs : all_logs v ≡ all_logs u ++ logs_of us
    pub transactions :
        map transaction_of (all_transactions v)
        ≡ map transaction_of (all_transactions u) ++ transactions_of us
    pub metrics :
        add (pending_execution_metrics v) default
        ≡ add (pending_execution_metrics u) (metrics_of us)
    pub deduplicated :
        v.storage_writes_deduplicator ≡ apply (logs_of us) u.storage_writes_deduplicator

  executed-Gathers :
      (tx : Transaction) (r : VmTxExeResult) (metrics : ExecutionMetrics) (u : UpdatesManager)
      → IsSound (executed tx r metrics)
      → (v : UpdatesManager) × (extend_from_executed_transaction encode hash_bytecode tx r metrics u
          ≡ returns v)
        × Gathers (executed tx r metrics ∷ []) u v
  unfolding extend_from_executed_transaction extend_miniblock_from_executed
      pending_execution_metrics add_executed
  executed-Gathers tx r metrics u h =
      let (size, sized) = encoded_transaction_size_returns encode hash_bytecode tx h.0 in
      let hash = h.1 in
      let new_logs = r.result.logs.storage_logs in
      let m = u.miniblock in
      let b = u.l1_batch in
      (
        record u {
          storage_writes_deduplicator = apply new_logs u.storage_writes_deduplicator;
          miniblock = add_executed hash_bytecode tx r metrics size hash m;
        },
        rw (sized, h.2) refl,
        record {
          logs =
              sym (append_assoc b.block_storage_logs m.storage_logs new_logs)
              ∙ ap (λ ls. (b.block_storage_logs ++ m.storage_logs) ++ ls)
                  (sym (append-nil new_logs));
          transactions =
              ap (map transaction_of)
                (sym (append_assoc b.executed_transactions m.executed_transactions _))
              ∙ map-append transaction_of (b.executed_transactions ++ m.executed_transactions) _;
          metrics =
              add-default b.block_execution_metrics (add m.block_execution_metrics metrics)
              ∙ sym (add_assoc b.block_execution_metrics m.block_execution_metrics metrics)
              ∙ sym (add-default (add b.block_execution_metrics m.block_execution_metrics) metrics)
              ∙ add_assoc (add b.block_execution_metrics m.block_execution_metrics) metrics default;
          deduplicated =
              ap (λ ls. apply ls u.storage_writes_deduplicator) (sym (append-nil new_logs));
        },
      )

  fictive-Gathers :
      (logs : VmExecutionLogs) (u : UpdatesManager)
      → Gathers (fictive logs ∷ []) u (extend_from_fictive_transaction logs u)
  unfolding extend_from_fictive_transaction extend_miniblock_from_fictive pending_execution_metrics
  fictive-Gathers logs u = record {
    logs =
        sym (append_assoc u.l1_batch.block_storage_logs u.miniblock.storage_logs logs.storage_logs)
        ∙ ap (λ ls. all_logs u ++ ls) (sym (append-nil logs.storage_logs));
    transactions = sym (append-nil (map transaction_of (all_transactions u)));
    metrics = refl;
    deduplicated =
        ap (λ ls. apply ls u.storage_writes_deduplicator) (sym (append-nil logs.storage_logs));
  }

  pushed-Gathers : (t : ℕ) (u : UpdatesManager) → Gathers (pushed t ∷ []) u (push_miniblock t u)
  unfolding apply
  pushed-Gathers t u =
      let (fresh, txs, logs, dedup, len, metrics, size) = push_miniblock_lem t u in
      record {
        logs = logs ∙ sym (append-nil (all_logs u));
        transactions =
            ap (map transaction_of) txs
            ∙ sym (append-nil (map transaction_of (all_transactions u)));
        metrics = ap (λ m. add m default) metrics;
        deduplicated = dedup ∙ unfold process_storage_logs in refl;
      }

  update-Gathers :
      (x : Update) (u : UpdatesManager)
      → IsSound x
      → (v : UpdatesManager) × (update x u ≡ returns v) × Gathers (x ∷ []) u v
  unfolding update
  update-Gathers (executed tx r metrics) u h = executed-Gathers tx r metrics u h
  update-Gathers (fictive logs) u h =
      (extend_from_fictive_transaction logs u, refl, fictive-Gathers logs u)
  update-Gathers (pushed t) u h = (push_miniblock t u, refl, pushed-Gathers t u)

  Gathers-cons :
      (x : Update) (ys : List Update) (u v w : UpdatesManager)
      → Gathers (x ∷ []) u v
      → Gathers ys v w
      → Gathers (x ∷ ys) u w
  Gathers-cons x ys u v w g h = record {
    logs =
        h.logs
        ∙ ap (λ ls. ls ++ logs_of ys) g.logs
        ∙ append_assoc (all_logs u) (logs_of (x ∷ [])) (logs_of ys)
        ∙ ap (λ ls. all_logs u ++ ls) (logs_of_cons x ys);
    transactions =
        h.transactions
        ∙ ap (λ ts. ts ++ transactions_of ys) g.transactions
        ∙ append_assoc (map transaction_of (all_transactions u)) (transactions_of (x ∷ []))
            (transactions_of ys)
        ∙ ap (λ ts. map transaction_of (all_transactions u) ++ ts) (transactions_of_cons x ys);
    metrics =
        h.metrics
        ∙ sym (add-default_left (pending_execution_metrics v) (metrics_of ys))
        ∙ ap (λ m. add m (metrics_of ys)) g.metrics
        ∙ add_assoc (pending_execution_metrics u) (metrics_of (x ∷ [])) (metrics_of ys)
        ∙ metrics_of_cons (pending_execution_metrics u) x ys;
    deduplicated =
        h.deduplicated
        ∙ ap (apply (logs_of ys)) g.deduplicated
        ∙ sym (apply-append (logs_of (x ∷ [])) (logs_of ys) u.storage_writes_deduplicator)
        ∙ ap (λ ls. apply ls u.storage_writes_deduplicator) (logs_of_cons x ys);
  }

  -- Sound updates never panic. Together they bring the batch their storage logs, their
  -- transactions and their metrics, in their order and each once, wherever miniblocks are closed
  -- among them, and the deduplicator is what it would be had it read the logs in one piece.
  pub run-Gathers :
      (xs : List Update) (u : UpdatesManager)
      → All IsSound xs
      → (v : UpdatesManager) × (run xs u ≡ returns v) × Gathers xs u v
  unfolding run
  run-Gathers [] u h = (
    u,
    refl,
    record {
      logs = sym (append-nil (all_logs u));
      transactions = sym (append-nil (map transaction_of (all_transactions u)));
      metrics = refl;
      deduplicated = unfold apply process_storage_logs in refl;
    },
  )
  run-Gathers (x ∷ xs) u h =
      let (v, first, g) = update-Gathers x u h.0 in
      let (w, rest, k) = run-Gathers xs v h.1 in
      (w, rw (first, rest) refl, Gathers-cons x xs u v w g k)
