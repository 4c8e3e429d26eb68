-- ===== src/SealLogic/Indexed.antt =====
-- The entries that a batch gathers belong to its open miniblock
-- (ola_core/src/sequencer/io/seal_logic.rs, updates/mod.rs).
use ola_os.Base.{
  ℕ, suc, ◌+◌, ◌≤◌, ◌<◌, ◌≡◌, refl, sym, ap, ◌∙◌, subst, subst₂, false, List, [], ◌∷◌, ◌++◌,
  returns, >>=-eq-returns, length, length-append, is_empty, All, All-map, All-append, arith,
}
use ola_os.Base.Words.{u32_mod}
use ola_os.Types.Tx.{Transaction, hash}
use ola_os.Types.Execution.{VmTxExeResult, ExecutionMetrics, TransactionExecutionResult}
use ola_os.TxData.{Value, encoded_transaction_size}
use ola_os.Updates.{
  UpdatesManager, MiniblockUpdates, BaseSystemContractsHashes, new, new_miniblock, push_miniblock,
  add_executed, extend_from_sealed_miniblock, extend_from_executed_transaction,
  extend_miniblock_from_executed, seal_miniblock_command,
}
use ola_os.Updates.Runs.{Update, executed, fictive, pushed, update, run}
use ola_os.SealLogic.{DbWrite, seal, miniblock_writes}
use ola_os.SealLogic.Miniblock.{seal-owned}

-- An index of the transactions from the first one on.
abbrev pub InBounds : ℕ → ℕ → ℕ → Type 0
InBounds first n i = (first ≤ i) × (i < first + n)

-- The numbers of transactions that are sealed in the batch, and of those in the open miniblock.
abbrev pub sealed_len : UpdatesManager → ℕ
sealed_len u = length u.l1_batch.executed_transactions

abbrev pub open_len : UpdatesManager → ℕ
open_len u = length u.miniblock.executed_transactions

abbrev HasHash : TransactionExecutionResult → Type 0
HasHash r = (h : ℕ) × (hash r.transaction ≡ returns h)

record IsIndexed (u : UpdatesManager) : Type 0 where
  events : All (λ e. InBounds (sealed_len u) (open_len u) e.tx_index) u.miniblock.events
  logs :
      All
        (λ l. InBounds (sealed_len u) (open_len u) l.log_query.tx_number_in_block)
        u.miniblock.storage_logs
  hashed : All HasHash u.miniblock.executed_transactions

-- Executed transactions are numbered from this one on, as their logs and events say.
abbrev pub IsNumberedFrom : ℕ → List Update → Type 0
IsNumberedFrom n [] = Unit
IsNumberedFrom n (executed tx r metrics ∷ us) =
    All (λ e. e.tx_index ≡ n) r.result.logs.events
    × All (λ l. l.log_query.tx_number_in_block ≡ n) r.result.logs.storage_logs
    × IsNumberedFrom (suc n) us
IsNumberedFrom n (fictive logs ∷ us) = ⊥
IsNumberedFrom n (pushed t ∷ us) = IsNumberedFrom n us

new-IsIndexed :
    (timestamp version : ℕ) (hashes : BaseSystemContractsHashes)
    → IsIndexed (new timestamp hashes version)
unfolding new new_miniblock
new-IsIndexed timestamp version hashes = record { events = tt; logs = tt; hashed = tt }

new_count :
    (timestamp version : ℕ) (hashes : BaseSystemContractsHashes)
    → sealed_len (new timestamp hashes version) + open_len (new timestamp hashes version) ≡ 0
unfolding new new_miniblock
new_count timestamp version hashes = refl

-- Closing a miniblock leaves an empty one open, and keeps the number of transactions.
pushed-IsIndexed : (t : ℕ) (u : UpdatesManager) → IsIndexed (push_miniblock t u)
unfolding push_miniblock new_miniblock
pushed-IsIndexed t u = record { events = tt; logs = tt; hashed = tt }

pushed_count :
    (t : ℕ) (u : UpdatesManager)
    → sealed_len u + open_len u ≡ sealed_len (push_miniblock t u) + open_len (push_miniblock t u)
unfolding push_miniblock extend_from_sealed_miniblock new_miniblock
pushed_count t u =
    omega (arith, length-append u.l1_batch.executed_transactions u.miniblock.executed_transactions)

-- One more transaction, and its entries.
widen :
    {A : Type 0} (f : A → ℕ) (first n m : ℕ) (old more : List A)
    → m ≡ suc n
    → All (λ a. InBounds first n (f a)) old
    → All (λ a. f a ≡ first + n) more
    → All (λ a. InBounds first m (f a)) (old ++ more)
widen f first n m old more one_more h k =
    All-append (λ a. InBounds first m (f a)) old more (All-map (λ a b. (b.0, omega arith)) old h)
      (All-map (λ a e. (omega arith, omega arith)) more k)

open-add_executed :
    (hash_bytecode : List ℕ → ℕ) (tx : Transaction) (r : VmTxExeResult) (metrics : ExecutionMetrics)
    (size h : ℕ) (m : MiniblockUpdates)
    → length (add_executed hash_bytecode tx r metrics size h m).executed_transactions
      ≡ suc (length m.executed_transactions)
unfolding add_executed
open-add_executed hash_bytecode tx r metrics size h m = omega (
  arith,
  length-append m.executed_transactions (
      record {
        transaction = tx;
        hash = h;
        execution_info = metrics;
        execution_status = r.status;
        revert_reason = r.result.revert_reason;
      }
      ∷ []),
)

returns_inj : {A : Type 0} {a b : A} → returns a ≡ returns b → a ≡ b
returns_inj e = cc

added-IsIndexed :
    (hash_bytecode : List ℕ → ℕ) (tx : Transaction) (r : VmTxExeResult) (metrics : ExecutionMetrics)
    (size h : ℕ) (u v : UpdatesManager)
    → IsIndexed u
    → hash tx ≡ returns h
    → All (λ e. e.tx_index ≡ sealed_len u + open_len u) r.result.logs.events
    → All
        (λ l. l.log_query.tx_number_in_block ≡ sealed_len u + open_len u)
        r.result.logs.storage_logs
    → v.l1_batch ≡ u.l1_batch
    → v.miniblock ≡ add_executed hash_bytecode tx r metrics size h u.miniblock
    → IsIndexed v × (sealed_len v + open_len v ≡ suc (sealed_len u + open_len u))
unfolding add_executed
added-IsIndexed hash_bytecode tx r metrics size h u v k hashed events logs batch miniblock =
    let one_more : open_len v ≡ suc (open_len u) =
      ap (λ m. length m.executed_transactions) miniblock
      ∙ open-add_executed hash_bytecode tx r metrics size h u.miniblock in
    let same_first : sealed_len v ≡ sealed_len u = ap (λ b. length b.executed_transactions) batch in
    (
      record {
        events =
            subst₂ (λ n es. All (λ e. InBounds n (open_len v) e.tx_index) es) (sym same_first)
              (ap (λ m. m.events) (sym miniblock))
              (widen (λ e. e.tx_index) (sealed_len u) (open_len u) (open_len v) u.miniblock.events
                r.result.logs.events one_more k.events events);
        logs =
            subst₂ (λ n ls. All (λ l. InBounds n (open_len v) l.log_query.tx_number_in_block) ls)
              (sym same_first) (ap (λ m. m.storage_logs) (sym miniblock))
              (widen (λ l. l.log_query.tx_number_in_block) (sealed_len u) (open_len u) (open_len v)
                u.miniblock.storage_logs r.result.logs.storage_logs one_more k.logs logs);
        hashed =
            subst (λ m. All HasHash m.executed_transactions) (sym miniblock)
              (All-append HasHash u.miniblock.executed_transactions
                (record {
                  transaction = tx;
                  hash = h;
                  execution_info = metrics;
                  execution_status = r.status;
                  revert_reason = r.result.revert_reason;
                }
                  ∷ [])
                k.hashed ((h, hashed), tt));
      },
      omega arith,
    )

module _ (encode : List Value → List ℕ) (hash_bytecode : List ℕ → ℕ) where
  executed-IsIndexed :
      (tx : Transaction) (r : VmTxExeResult) (metrics : ExecutionMetrics) (u v : UpdatesManager)
      → IsIndexed u
      → All (λ e. e.tx_index ≡ sealed_len u + open_len u) r.result.logs.events
      → All
          (λ l. l.log_query.tx_number_in_block ≡ sealed_len u + open_len u)
          r.result.logs.storage_logs
      → extend_from_executed_transaction encode hash_bytecode tx r metrics u ≡ returns v
      → IsIndexed v × (sealed_len v + open_len v ≡ suc (sealed_len u + open_len u))
  unfolding extend_from_executed_transaction extend_miniblock_from_executed
  executed-IsIndexed tx r metrics u v k events logs e =
      let (m, made, extended) =
        >>=-eq-returns
          (extend_miniblock_from_executed encode hash_bytecode tx r metrics u.miniblock) _ e in
      let (size, sized, made') =
        >>=-eq-returns (encoded_transaction_size encode hash_bytecode tx) _ made in
      let (h, hashed, made'') = >>=-eq-returns (hash tx) _ made' in
      added-IsIndexed hash_bytecode tx r metrics size h u v k hashed events logs
        (sym (ap (λ w. w.l1_batch) (returns_inj extended)))
        (sym (ap (λ w. w.miniblock) (returns_inj extended)) ∙ sym (returns_inj made''))

  run-IsIndexed :
      (xs : List Update) (u v : UpdatesManager)
      → IsIndexed u
      → IsNumberedFrom (sealed_len u + open_len u) xs
      → run encode hash_bytecode xs u ≡ returns v
      → IsIndexed v
  unfolding run update
  run-IsIndexed [] u v h numbered e = subst IsIndexed (returns_inj e) h
  run-IsIndexed (executed tx r metrics ∷ xs) u v h (events, logs, numbered) e =
      let (w, first, rest) =
        >>=-eq-returns (extend_from_executed_transaction encode hash_bytecode tx r metrics u) _ e in
      let (indexed, count) = executed-IsIndexed tx r metrics u w h events logs first in
      run-IsIndexed xs w v indexed (subst (λ n. IsNumberedFrom n xs) (sym count) numbered) rest
  run-IsIndexed (fictive logs ∷ xs) u v h numbered e = absurd numbered
  run-IsIndexed (pushed t ∷ xs) u v h numbered e =
      run-IsIndexed xs (push_miniblock t u) v (pushed-IsIndexed t u)
        (subst (λ n. IsNumberedFrom n xs) (pushed_count t u) numbered) e

-- If the transactions of a batch are numbered in the order of their execution, by their logs and
-- events, then wherever its miniblocks are closed, an open miniblock that has transactions is
-- sealed without a panic.
pub run-seal :
    (encode : List Value → List ℕ) (hash_bytecode : List ℕ → ℕ) (hash_bytes : List ℕ → ℕ)
    (timestamp version l1_batch_number miniblock_number : ℕ) (hashes : BaseSystemContractsHashes)
    (xs : List Update) (v : UpdatesManager)
    → IsNumberedFrom 0 xs
    → run encode hash_bytecode xs (new timestamp hashes version) ≡ returns v
    → is_empty v.miniblock.executed_transactions ≡ false
    → length v.l1_batch.executed_transactions + length v.miniblock.executed_transactions < u32_mod
    → (writes : List DbWrite) × (seal hash_bytes
          (seal_miniblock_command l1_batch_number miniblock_number v)
        ≡ returns writes)
unfolding seal_miniblock_command
run-seal encode hash_bytecode hash_bytes timestamp version l1_batch_number miniblock_number hashes
      xs v numbered e nonempty small =
    let indexed =
      run-IsIndexed encode hash_bytecode xs (new timestamp hashes version) v
        (new-IsIndexed timestamp version hashes)
        (subst (λ n. IsNumberedFrom n xs) (sym (new_count timestamp version hashes)) numbered) e in
    let (write_logs, events, writes, owned_logs, owned_events) =
      seal-owned hash_bytes (seal_miniblock_command l1_batch_number miniblock_number v) (record {
        executed = nonempty;
        events = indexed.events;
        logs = indexed.logs;
        hashed = indexed.hashed;
        small = small;
      }) in
    (
      miniblock_writes hash_bytes (seal_miniblock_command l1_batch_number miniblock_number v)
          write_logs events,
      writes,
    )
