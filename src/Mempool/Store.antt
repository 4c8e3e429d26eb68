-- ===== src/Mempool/Store.antt =====
-- The mempool store (mempool/src/mempool_store.rs). Logging is left out, but for the hash of a
-- transaction that a log line computes, which panics without an input. `size` counts stored transactions, so its sums do not reach
-- 2^64; the checked subtraction is kept.
use ola_os.Base.{
  ℕ, ◌+◌, ◌-◌, Bool, Option, none, some, List, [], ◌∷◌, ◌++◌, Outcome, returns, panics, expect,
  ◌>>=◌, ltb, leb, is_some, if◌then◌else◌, last?,
}
use ola_os.Base.Order.{nat_ord}
use ola_os.Base.Map
use ola_os.Base.Map.{Map, Set, keys, contains, below, from}
use ola_os.Base.Map.Entries.{sum_by}
use ola_os.Types.Tx.{
  Execute, L2Tx, Transaction, ExecuteTransactionCommon, l2, protocol_upgrade, from_l2,
  initiator_account, l2_hash,
}
use ola_os.Mempool.Account.{AccountTransactions, MempoolScore, score_ord, InsertionMetadata}
use ola_os.Mempool.Account

pub record MempoolStore : Type 0 where
  pub l2_transactions_per_account : Map ℕ AccountTransactions
  pub l2_priority_queue : Set MempoolScore
  pub next_priority_id : ℕ
  pub stashed_accounts : List ℕ
  pub size : ℕ
  pub capacity : ℕ

pub record MempoolInfo : Type 0 where
  pub stashed_accounts : List ℕ
  pub purged_accounts : List ℕ

unfoldable pub new : ℕ → ℕ → MempoolStore
new next_priority_id capacity = record {
  l2_transactions_per_account = [];
  l2_priority_queue = [];
  next_priority_id = next_priority_id;
  stashed_accounts = [];
  size = 0;
  capacity = capacity;
}

-- `rfind` takes the greatest score.
unfoldable pub has_next : MempoolStore → Bool
has_next s = is_some (last? (keys s.l2_priority_queue))

-- `checked_sub`
abbrev pub checked_sub : ℕ → ℕ → Option ℕ
checked_sub a b = if ltb a b then none else some (a - b)

-- The loop that stashes the accounts of the given scores; the number counts what it removed.
unfoldable pub stash : List MempoolScore → MempoolStore → ℕ → Outcome (MempoolStore × ℕ)
stash [] s removed = returns (s, removed)
stash (p ∷ ps) s removed = do
  txs ← expect (Map.lookup p.account s.l2_transactions_per_account)
  stash ps
      (record s {
        l2_transactions_per_account = Map.remove p.account s.l2_transactions_per_account;
        stashed_accounts = s.stashed_accounts ++ p.account ∷ [];
      })
      (removed + Account.len txs)

-- `skip(1)`
abbrev pub skip_one {ℓ} : {A : Type ℓ} → List A → List A
skip_one [] = []
skip_one (x ∷ xs) = xs

abbrev pub add_score : Option MempoolScore → Set MempoolScore → Set MempoolScore
add_score none q = q
add_score (some p) q = Map.add p q

abbrev pub remove_score : Option MempoolScore → Set MempoolScore → Set MempoolScore
remove_score none q = q
remove_score (some p) q = Map.remove p q

-- The transaction that the greatest score points to.
unfoldable pub take_pointed :
    MempoolScore → MempoolStore → Outcome (MempoolStore × Option Transaction)
take_pointed pointer s = do
  (t, removed) ←
      stash (skip_one (keys (from pointer s.l2_priority_queue)))
        (record s { l2_priority_queue = below pointer s.l2_priority_queue }) 0
  account ← expect (Map.lookup pointer.account t.l2_transactions_per_account)
  (rest, transaction, score) ← Account.next account
  size ← expect (checked_sub t.size (removed + 1))
  tx_hash ← l2_hash transaction.common_data
  returns (
    record t {
      l2_transactions_per_account = Map.insert pointer.account rest t.l2_transactions_per_account;
      l2_priority_queue = add_score score t.l2_priority_queue;
      size = size;
    },
    some (from_l2 transaction),
  )

unfoldable pub next_transaction : MempoolStore → Outcome (MempoolStore × Option Transaction)
unfolding take_pointed
next_transaction s = elim (last? (keys s.l2_priority_queue)) [
  | none ↦ returns (s, none)
  | some pointer ↦ take_pointed pointer s
]

abbrev pub or_zero : Option ℕ → ℕ
or_zero none = 0
or_zero (some n) = n

-- The account's transactions, or an empty set of them with its nonce in the database.
unfoldable pub entry_or_new : ℕ → Map ℕ ℕ → MempoolStore → AccountTransactions
entry_or_new account initial_nonces s = elim (Map.lookup account s.l2_transactions_per_account) [
  | some txs ↦ txs
  | none ↦ Account.new (or_zero (Map.lookup account initial_nonces))
]

-- The insertion once the transaction's hash is logged.
unfoldable pub insert_logged : L2Tx → Map ℕ ℕ → MempoolStore → MempoolStore
insert_logged tx initial_nonces s =
    let account = tx.common_data.initiator_address in
    let (txs, metadata) = Account.insert (entry_or_new account initial_nonces s) tx in
    record s {
      l2_transactions_per_account = Map.insert account txs s.l2_transactions_per_account;
      l2_priority_queue =
          add_score metadata.new_score (remove_score metadata.previous_score s.l2_priority_queue);
      size = if metadata.is_new then s.size + 1 else s.size;
    }

unfoldable pub insert_l2_transaction : L2Tx → Map ℕ ℕ → MempoolStore → Outcome MempoolStore
unfolding insert_logged
insert_l2_transaction tx initial_nonces s = do
  tx_hash ← l2_hash tx.common_data
  returns (insert_logged tx initial_nonces s)

-- One round of `insert`, by the kind of the transaction.
unfoldable pub insert_common :
    ExecuteTransactionCommon → Execute → ℕ → Map ℕ ℕ → MempoolStore → Outcome MempoolStore
unfolding insert_l2_transaction
insert_common (l2 common) execute received initial_nonces s =
    insert_l2_transaction
      (record { execute = execute; common_data = common; received_timestamp_ms = received })
      initial_nonces s
insert_common (protocol_upgrade _) execute received initial_nonces s = panics

unfoldable pub insert : List Transaction → Map ℕ ℕ → MempoolStore → Outcome MempoolStore
unfolding insert_common
insert [] initial_nonces s = returns s
insert (tx ∷ txs) initial_nonces s = do
  t ← insert_common tx.common_data tx.execute tx.received_timestamp_ms initial_nonces s
  insert txs initial_nonces t

unfoldable pub rollback_common :
    ExecuteTransactionCommon → Transaction → MempoolStore → Outcome MempoolStore
rollback_common (protocol_upgrade _) tx s = panics
rollback_common (l2 _) tx s = do
  txs ← expect (Map.lookup (initiator_account tx) s.l2_transactions_per_account)
  (reset, score) ← Account.reset txs tx
  returns (record s {
    l2_transactions_per_account =
        Map.insert (initiator_account tx) reset s.l2_transactions_per_account;
    l2_priority_queue = remove_score score s.l2_priority_queue;
  })

unfoldable pub rollback : Transaction → MempoolStore → Outcome MempoolStore
unfolding rollback_common
rollback tx s = rollback_common tx.common_data tx s

-- `collect` into a `HashSet` of the accounts in the queue.
unfoldable pub queued_accounts : List MempoolScore → Set ℕ
queued_accounts [] = []
queued_accounts (p ∷ ps) = Map.add p.account (queued_accounts ps)

-- `partition` by membership in the index.
unfoldable pub kept : Set ℕ → Map ℕ AccountTransactions → Map ℕ AccountTransactions
kept index [] = []
kept index ((a, t) ∷ m) =
    let rest = kept index m in if contains a index then (a, t) ∷ rest else rest

unfoldable pub drained : Set ℕ → Map ℕ AccountTransactions → Map ℕ AccountTransactions
drained index [] = []
drained index ((a, t) ∷ m) =
    let rest = drained index m in if contains a index then rest else (a, t) ∷ rest

unfoldable pub gc : MempoolStore → MempoolStore × List ℕ
gc s =
    let index = queued_accounts (keys s.l2_priority_queue) in
    let left = kept index s.l2_transactions_per_account in
    if leb s.capacity s.size
    then (
      record s { l2_transactions_per_account = left; size = sum_by Account.len left },
      keys (drained index s.l2_transactions_per_account),
    )
    else (s, [])

unfoldable pub get_mempool_info : MempoolStore → MempoolStore × MempoolInfo
get_mempool_info s =
    let stashed = s.stashed_accounts in
    let (t, purged) = gc (record s { stashed_accounts = [] }) in
    (t, record { stashed_accounts = stashed; purged_accounts = purged })
