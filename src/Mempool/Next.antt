-- ===== src/Mempool/Next.antt =====
-- Taking the next transaction from a valid mempool.
use ola_os.Base.{
  ℕ, ◌-◌, ◌≤◌, ◌<◌, ◌≡◌, refl, inl, inr, Option, none, some, true, false, arith, Option-cases,
  returns, last?,
}
use ola_os.Base.Order.{nat_ord}
use ola_os.Base.Words.{wrapping_add32}
use ola_os.Base.Map
use ola_os.Base.Map.{Map, Set, keys, contains, below, from, IsSorted}
use ola_os.Base.Map.Sorted.{remove-IsSorted, length-remove}
use ola_os.Base.Map.Last.{below_last, from_last, contains-last, last_greatest, last-none}
use ola_os.Base.Map.Entries.{All-remove, All-lookup, sum_by-lookup}
use ola_os.Types.Tx.{L2Tx, Transaction, from_l2, l2_hash}
use ola_os.Mempool.Account.{AccountTransactions, MempoolScore, score_ord}
use ola_os.Mempool.Account
use ola_os.Mempool.Store.{MempoolStore, add_score, remove_score}
use ola_os.Mempool.Store
use ola_os.Mempool.Pointers.{add_score-IsSorted, exchange_ne, exchange_own}
use ola_os.Mempool.Invariant.{
  HasInput, IsFiled, AccountIsValid, IsValid, replace-IsValid, score_at-BelongsTo,
}
use ola_os.Mempool.Insert.{pointers_at}

-- The account once its head is sent.
abbrev pub sent : AccountTransactions → AccountTransactions
sent t = record t {
  transactions = Map.remove t.nonce t.transactions;
  nonce = wrapping_add32 t.nonce 1;
}

-- The store once the head of an account is sent.
abbrev pub after_next : MempoolScore → AccountTransactions → MempoolStore → MempoolStore
after_next p t s = record s {
  l2_transactions_per_account = Map.insert p.account (sent t) s.l2_transactions_per_account;
  l2_priority_queue =
      add_score (Account.score_at (sent t).nonce (sent t)) (Map.remove p s.l2_priority_queue);
  size = s.size - 1;
}

-- What a queued score points to.
pub record Pointed (s : MempoolStore) (p : MempoolScore) : Type 0 where
  pub txs : AccountTransactions
  pub tx : L2Tx
  pub found : Map.lookup p.account s.l2_transactions_per_account ≡ some txs
  pub head : Map.lookup txs.nonce txs.transactions ≡ some tx
  pub scored : Account.score_for_transaction tx ≡ p
  pub signed : HasInput tx.common_data

pub pointed :
    (s : MempoolStore) (p : MempoolScore)
    → IsValid s
    → contains p s.l2_priority_queue ≡ true
    → Pointed s p
unfolding Account.score_at
pointed s p v c =
    let e = (v.pointers p).0 c in
    elim (Option-cases (Map.lookup p.account s.l2_transactions_per_account)) [
      | inl absent ↦ absurd (ground (arith, e))
      | inr (t, found) ↦ elim (Option-cases (Map.lookup t.nonce t.transactions)) [
        | inl missing ↦ absurd (ground (arith, e))
        | inr (tx, head) ↦ record {
          txs = t;
          tx = tx;
          found = found;
          head = head;
          scored = ground (arith, e);
          signed =
              (All-lookup (IsFiled p.account) t.nonce t.transactions
                (All-lookup AccountIsValid p.account s.l2_transactions_per_account v.accounts_valid
                  found).1
                head).2;
        }
      ]
    ]

-- A store with a transaction has a positive size.
pub size_pos : (s : MempoolStore) (p : MempoolScore) (d : Pointed s p) → IsValid s → 0 < s.size
unfolding Account.len
size_pos s p d v = ground (
  arith,
  v.counted,
  sum_by-lookup Account.len p.account {v = d.txs} s.l2_transactions_per_account d.found,
  length-remove d.txs.nonce d.txs.transactions,
  d.head,
)

pub next_transaction_empty :
    (s : MempoolStore)
    → last? (keys s.l2_priority_queue) ≡ none
    → Store.next_transaction s ≡ returns (s, none)
unfolding Store.next_transaction
next_transaction_empty s e = rw (e, Store.next_transaction)

pub next_transaction_lem :
    (s : MempoolStore) (p : MempoolScore) (d : Pointed s p)
    → IsValid s
    → last? (keys s.l2_priority_queue) ≡ some p
    → Store.next_transaction s ≡ returns (after_next p d.txs s, some (from_l2 d.tx))
unfolding Store.next_transaction Store.stash Account.next keys l2_hash
next_transaction_lem s p d v e =
    rw (e, Store.next_transaction)
      (rw (from_last p s.l2_priority_queue v.queue_sorted e, Store.take_pointed)
        (rw (below_last p s.l2_priority_queue v.queue_sorted e)
          (ground (arith, d.found, d.head, d.signed, size_pos s p d v))))

-- The account that is served stays well filed.
pub sent-AccountIsValid :
    (a : ℕ) (t : AccountTransactions) → AccountIsValid (a, t) → AccountIsValid (a, sent t)
sent-AccountIsValid a t v =
    (remove-IsSorted t.nonce t.transactions v.0, All-remove (IsFiled a) t.nonce t.transactions v.1)

after_next-IsValid :
    (s : MempoolStore) (p : MempoolScore) (d : Pointed s p)
    → IsValid s
    → contains p s.l2_priority_queue ≡ true
    → IsValid (after_next p d.txs s)
unfolding Account.len
after_next-IsValid s p d v c =
    let t = d.txs in
    let ok =
      All-lookup AccountIsValid p.account s.l2_transactions_per_account v.accounts_valid d.found in
    let done = sent-AccountIsValid p.account t ok in
    let new = Account.score_at (sent t).nonce (sent t) in
    replace-IsValid s p.account (sent t) (add_score new (Map.remove p s.l2_priority_queue))
      (s.size - 1) v done
      (add_score-IsSorted new (Map.remove p s.l2_priority_queue)
        (remove-IsSorted p s.l2_priority_queue v.queue_sorted))
      (λ r own.
        exchange_own (some p) new s.l2_priority_queue r v.queue_sorted
          (rw ((v.pointers p).0 c) at (pointers_at p.account s r v own)))
      (λ r other.
        exchange_ne p.account (some p) new s.l2_priority_queue r refl
          (score_at-BelongsTo p.account (sent t).nonce (sent t) done) other)
      (ground (arith, d.found, d.head, length-remove t.nonce t.transactions, size_pos s p d v))

-- From a valid store, `next_transaction` returns: it panics on no dangling pointer, on no negative
-- size and on no missing hash, as the stored transactions have inputs. The store stays valid, and no account is stashed.
pub next_transaction-IsValid :
    (s : MempoolStore)
    → IsValid s
    → (s' : MempoolStore) × (r : Option Transaction) × (Store.next_transaction s ≡ returns (s', r))
      × IsValid s'
      × (s'.stashed_accounts ≡ s.stashed_accounts)
next_transaction-IsValid s v = elim (Option-cases (last? (keys s.l2_priority_queue))) [
  | inl empty ↦ (s, none, next_transaction_empty s empty, v, refl)
  | inr (p, e) ↦
      let c = contains-last p s.l2_priority_queue e in
      let d = pointed s p v c in
      (
        after_next p d.txs s,
        some (from_l2 d.tx),
        next_transaction_lem s p d v e,
        after_next-IsValid s p d v c,
        refl,
      )
]

-- The order in which a valid store serves.
abbrev pub Serves : MempoolStore → Option Transaction → Type 0
Serves s none = (p : MempoolScore) → contains p s.l2_priority_queue ≡ false
Serves s (some tx) =
    (a : ℕ) × (t : AccountTransactions) × (h : L2Tx) × (Map.lookup a s.l2_transactions_per_account
      ≡ some t)
    × (Map.lookup t.nonce t.transactions ≡ some h)
    × (tx ≡ from_l2 h)
    × ((p : MempoolScore)
        → contains p s.l2_priority_queue ≡ true
        → tx.received_timestamp_ms ≤ p.received_at_ms)

oldest_first :
    (s : MempoolStore) (p : MempoolScore) (d : Pointed s p)
    → IsValid s
    → last? (keys s.l2_priority_queue) ≡ some p
    → (q : MempoolScore) → contains q s.l2_priority_queue ≡ true
    → (from_l2 d.tx).received_timestamp_ms ≤ q.received_at_ms
unfolding from_l2 Account.score_for_transaction
oldest_first s p d v last q c =
    let order = last_greatest p q s.l2_priority_queue v.queue_sorted last c in
    ground (arith, order, d.scored)

-- What a valid store returns is the transaction at its account's nonce, and no account in the queue
-- has a head that was received earlier. Nothing is returned only if the queue is empty.
pub next_transaction-Serves :
    (s : MempoolStore) {s' : MempoolStore} (r : Option Transaction)
    → IsValid s
    → Store.next_transaction s ≡ returns (s', r)
    → Serves s r
unfolding contains Map.lookup
next_transaction-Serves s r v e = elim (Option-cases (last? (keys s.l2_priority_queue))) [
  | inl empty ↦
      let nothing : r ≡ none = cc (e, next_transaction_empty s empty) in
      rw nothing (λ p. rw (last-none s.l2_priority_queue empty))
  | inr (p, last) ↦
      let c = contains-last p s.l2_priority_queue last in
      let d = pointed s p v c in
      let tx : r ≡ some (from_l2 d.tx) = cc (e, next_transaction_lem s p d v last) in
      rw tx (p.account, d.txs, d.tx, d.found, d.head, refl, oldest_first s p d v last)
]
