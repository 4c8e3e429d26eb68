-- ===== src/Mempool/Insert.antt =====
-- Insertion into the mempool keeps it valid.
use ola_os.Base.{
  ℕ, ◌+◌, ◌<◌, ◌≡◌, ◌≢◌, ◌↔◌, refl, inl, inr, none, some, Bool, true, false, All, arith, subst, sym,
  Option-cases, order-cases, less, same, more, returns, List, [], ◌∷◌, is_some, not, if◌then◌else◌,
}
use ola_os.Base.Order.{nat_ord}
use ola_os.Base.Map
use ola_os.Base.Map.{Map, Set, contains, IsSorted}
use ola_os.Base.Map.Laws.{lookup-insert_self, lookup-insert_ne}
use ola_os.Base.Map.Sorted.{insert-IsSorted, length-insert}
use ola_os.Base.Map.Entries.{All-insert, All-lookup, weight}
use ola_os.Types.Tx.{
  Execute, L2Tx, Transaction, ExecuteTransactionCommon, l2, protocol_upgrade, l2_hash,
}
use ola_os.Mempool.Account.{AccountTransactions, MempoolScore, score_ord, InsertionMetadata}
use ola_os.Mempool.Account
use ola_os.Mempool.Store.{MempoolStore, add_score, remove_score}
use ola_os.Mempool.Store
use ola_os.Mempool.Pointers.{add_score-IsSorted, remove_score-IsSorted, exchange_ne, exchange_own}
use ola_os.Mempool.Invariant.{
  HasInput, IsFiled, AccountIsValid, IsValid, head_score, replace-IsValid, score_at-BelongsTo,
}

-- The entries of an account with a transaction filed under a nonce.
abbrev pub filed : ℕ → L2Tx → AccountTransactions → AccountTransactions
filed n tx t = record t { transactions = Map.insert n tx t.transactions }

pub score_at-filed_self :
    (n : ℕ) (tx : L2Tx) (t : AccountTransactions)
    → Account.score_at n (filed n tx t) ≡ some (Account.score_for_transaction tx)
unfolding Account.score_at
score_at-filed_self n tx t = rw (lookup-insert_self n tx t.transactions)

score_at-filed_ne :
    (j n : ℕ) (tx : L2Tx) (t : AccountTransactions)
    → j ≢ n
    → Account.score_at j (filed n tx t) ≡ Account.score_at j t
unfolding Account.score_at
score_at-filed_ne j n tx t h = rw (lookup-insert_ne j n tx t.transactions h)

module _ (t : AccountTransactions) (tx : L2Tx) where
  abbrev fresh : Bool
  fresh = not (is_some (Account.score_at tx.common_data.nonce t))

  -- An old transaction is dropped.
  insert_old :
      tx.common_data.nonce < t.nonce
      → Account.insert t tx
        ≡ (t, record { new_score = none; previous_score = none; is_new = false })
  unfolding Account.insert
  insert_old h = ground arith

  -- At the account's nonce it becomes the head.
  pub insert_head :
      tx.common_data.nonce ≡ t.nonce
      → Account.insert t tx ≡ (
        filed tx.common_data.nonce tx t,
        record {
          new_score = some (Account.score_for_transaction tx);
          previous_score = Account.score_at tx.common_data.nonce t;
          is_new = fresh;
        },
      )
  unfolding Account.insert
  insert_head h = ground arith

  -- Above it, the transaction waits.
  insert_later :
      t.nonce < tx.common_data.nonce
      → Account.insert t tx ≡ (
        filed tx.common_data.nonce tx t,
        record { new_score = none; previous_score = none; is_new = fresh },
      )
  unfolding Account.insert
  insert_later h = ground arith

module _ (a : ℕ) (t : AccountTransactions) (tx : L2Tx) (v : AccountIsValid (a, t))
    (mine : tx.common_data.initiator_address ≡ a) (signed : HasInput tx.common_data) where
  pub account_insert-AccountIsValid : AccountIsValid (a, (Account.insert t tx).0)
  unfolding Account.insert
  account_insert-AccountIsValid = ground (
    arith,
    insert-IsSorted tx.common_data.nonce tx t.transactions v.0,
    All-insert (IsFiled a) tx.common_data.nonce tx t.transactions (refl, mine, signed) v.1,
  )

  score_at_head :
      tx.common_data.nonce ≡ t.nonce
      → Account.score_at t.nonce (filed tx.common_data.nonce tx t)
        ≡ some (Account.score_for_transaction tx)
  score_at_head head =
      subst
        (λ n.
          Account.score_at n (filed tx.common_data.nonce tx t)
          ≡ some (Account.score_for_transaction tx))
        head (score_at-filed_self tx.common_data.nonce tx t)

  -- The account's pointer after an insertion.
  pub account_insert_own :
      (q : Set MempoolScore) (p : MempoolScore)
      → IsSorted q
      → (contains p q ≡ true) ↔ (Account.score_at t.nonce t ≡ some p)
      → let (t', m) = Account.insert t tx in
        (contains p (add_score m.new_score (remove_score m.previous_score q)) ≡ true)
        ↔ (Account.score_at t'.nonce t' ≡ some p)
  account_insert_own q p s h = elim (order-cases tx.common_data.nonce t.nonce) [
    | less old ↦ rw (insert_old t tx old) h
    | same head ↦ rw (insert_head t tx head) (
        rw (score_at_head head) (
          exchange_own (Account.score_at tx.common_data.nonce t)
            (some (Account.score_for_transaction tx)) q p s
            (subst (λ n. (contains p q ≡ true) ↔ (Account.score_at n t ≡ some p)) (sym head) h)))
    | more later ↦
        rw
          (
            insert_later t tx later,
            score_at-filed_ne t.nonce tx.common_data.nonce tx t (omega arith),
          )
          h
  ]

  pub account_insert_others :
      (q : Set MempoolScore) (p : MempoolScore)
      → p.account ≢ a
      → let (t', m) = Account.insert t tx in
        contains p (add_score m.new_score (remove_score m.previous_score q)) ≡ contains p q
  account_insert_others q p h = elim (order-cases tx.common_data.nonce t.nonce) [
    | less old ↦ rw (insert_old t tx old)
    | same head ↦ rw (insert_head t tx head) (
        exchange_ne a (Account.score_at tx.common_data.nonce t)
          (some (Account.score_for_transaction tx)) q p
          (score_at-BelongsTo a tx.common_data.nonce t v)
          (unfold Account.score_for_transaction in mine) h)
    | more later ↦ rw (insert_later t tx later)
  ]

  pub account_insert-len :
      let (t', m) = Account.insert t tx in
      Account.len t' ≡ Account.len t + (if m.is_new then 1 else 0)
  unfolding Account.insert Account.len Account.score_at
  account_insert-len = ground (arith, length-insert tx.common_data.nonce tx t.transactions v.0)

pub entry_or_new-AccountIsValid :
    (a : ℕ) (nonces : Map ℕ ℕ) (s : MempoolStore)
    → IsValid s
    → AccountIsValid (a, Store.entry_or_new a nonces s)
unfolding Store.entry_or_new Account.new
entry_or_new-AccountIsValid a nonces s v =
    elim (Option-cases (Map.lookup a s.l2_transactions_per_account)) [
      | inl absent ↦ rw (absent, Store.entry_or_new) (tt, tt)
      | inr (t, found) ↦
          rw (found, Store.entry_or_new)
            (All-lookup AccountIsValid a s.l2_transactions_per_account v.accounts_valid found)
    ]

-- The pointer of an account that is not there is none, as of a new one.
pub entry_or_new_head :
    (a : ℕ) (nonces : Map ℕ ℕ) (s : MempoolStore)
    → let t = Store.entry_or_new a nonces s in
      Account.score_at t.nonce t ≡ head_score (Map.lookup a s.l2_transactions_per_account)
unfolding Store.entry_or_new Account.new Account.score_at Map.lookup
entry_or_new_head a nonces s = elim (Option-cases (Map.lookup a s.l2_transactions_per_account)) [
  | inl absent ↦ rw (absent, Store.entry_or_new)
  | inr (t, found) ↦ rw (found, Store.entry_or_new)
]

pub pointers_at :
    (a : ℕ) (s : MempoolStore) (p : MempoolScore)
    → IsValid s
    → p.account ≡ a
    → (contains p s.l2_priority_queue ≡ true)
      ↔ (head_score (Map.lookup a s.l2_transactions_per_account) ≡ some p)
pointers_at a s p v own =
    subst
      (λ k.
        (contains p s.l2_priority_queue ≡ true)
        ↔ (head_score (Map.lookup k s.l2_transactions_per_account) ≡ some p))
      own (v.pointers p)

entry_or_new-len :
    (a : ℕ) (nonces : Map ℕ ℕ) (s : MempoolStore)
    → weight Account.len (Map.lookup a s.l2_transactions_per_account)
      ≡ Account.len (Store.entry_or_new a nonces s)
unfolding Store.entry_or_new Account.new Account.len
entry_or_new-len a nonces s = ground arith

-- Inserting an L2 transaction keeps the store valid.
pub insert_logged-IsValid :
    (tx : L2Tx) (nonces : Map ℕ ℕ) (s : MempoolStore)
    → HasInput tx.common_data
    → IsValid s
    → IsValid (Store.insert_logged tx nonces s)
unfolding Store.insert_logged
insert_logged-IsValid tx nonces s signed v =
    let a = tx.common_data.initiator_address in
    let t = Store.entry_or_new a nonces s in
    let ok = entry_or_new-AccountIsValid a nonces s v in
    let m = (Account.insert t tx).1 in
    replace-IsValid s a (Account.insert t tx).0
      (add_score m.new_score (remove_score m.previous_score s.l2_priority_queue))
      (if m.is_new then s.size + 1 else s.size) v
      (account_insert-AccountIsValid a t tx ok refl signed)
      (add_score-IsSorted m.new_score (remove_score m.previous_score s.l2_priority_queue)
        (remove_score-IsSorted m.previous_score s.l2_priority_queue v.queue_sorted))
      (λ p own.
        account_insert_own a t tx ok refl signed s.l2_priority_queue p v.queue_sorted
          (rw (entry_or_new_head a nonces s) (pointers_at a s p v own)))
      (λ p other. account_insert_others a t tx ok refl signed s.l2_priority_queue p other)
      (ground (arith, entry_or_new-len a nonces s, account_insert-len a t tx ok refl signed))

-- Protocol upgrades do not go through the mempool, and other transactions have a hash.
abbrev pub IsL2 : ExecuteTransactionCommon → Type 0
IsL2 (l2 d) = HasInput d
IsL2 (protocol_upgrade _) = ⊥

pub inserted :
    (tx : L2Tx) (nonces : Map ℕ ℕ) (s : MempoolStore)
    → HasInput tx.common_data
    → Store.insert_l2_transaction tx nonces s ≡ returns (Store.insert_logged tx nonces s)
unfolding Store.insert_l2_transaction l2_hash
inserted tx nonces s signed = ground (arith, signed)

insert_common-IsValid :
    (c : ExecuteTransactionCommon) (x : Execute) (r : ℕ) (nonces : Map ℕ ℕ) (s : MempoolStore)
    → IsL2 c
    → IsValid s
    → (s' : MempoolStore) × (Store.insert_common c x r nonces s ≡ returns s') × IsValid s'
unfolding Store.insert_common
insert_common-IsValid (l2 d) x r nonces s h v =
    let tx : L2Tx = record { execute = x; common_data = d; received_timestamp_ms = r } in
    (Store.insert_logged tx nonces s, inserted tx nonces s h, insert_logged-IsValid tx nonces s h v)
insert_common-IsValid (protocol_upgrade d) x r nonces s h v = absurd h

-- A batch of L2 transactions with inputs is inserted without a panic, and the store stays valid.
pub insert-IsValid :
    (txs : List Transaction) (nonces : Map ℕ ℕ) (s : MempoolStore)
    → All (λ tx. IsL2 tx.common_data) txs
    → IsValid s
    → (s' : MempoolStore) × (Store.insert txs nonces s ≡ returns s') × IsValid s'
unfolding Store.insert
insert-IsValid [] nonces s h v = (s, refl, v)
insert-IsValid (tx ∷ txs) nonces s h v =
    let (t, stepped, ok) =
      insert_common-IsValid tx.common_data tx.execute tx.received_timestamp_ms nonces s h.0 v in
    let (s', rest, done) = insert-IsValid txs nonces t h.1 ok in
    (s', rw (stepped, Store.insert) rest, done)
