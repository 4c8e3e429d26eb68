-- ===== src/Mempool/Rollback.antt =====
-- `MempoolIO::rollback` undoes `next_transaction`.
use ola_os.Base.{
  ℕ, ◌+◌, ◌-◌, ◌<◌, ◌≡◌, refl, sym, ap, subst, inl, inr, Option-cases, Option, none, some, true,
  arith, Outcome, returns, [], ◌∷◌, ◌>>=◌, min, subst₂, last?,
}
use ola_os.Base.Order.{nat_ord}
use ola_os.Base.Words.{wrapping_add32, u32_mod}
use ola_os.Base.Map
use ola_os.Base.Map.{Map, Set, keys, contains, IsSorted}
use ola_os.Base.Map.Laws.{
  cmp-cases, lookup-remove_ne, lookup-contains, lookup-insert_self, lookup-remove_self,
  contains-lookup,
}
use ola_os.Base.Map.Sorted.{
  insert-remove, remove-insert, remove-IsSorted, insert-insert, insert_same,
}
use ola_os.Types.Tx.{L2Tx, Transaction, from_l2}
use ola_os.Types.Tx
use ola_os.Mempool.Account.{AccountTransactions, MempoolScore, score_ord}
use ola_os.Mempool.Account
use ola_os.Mempool.Store.{MempoolStore, add_score, remove_score}
use ola_os.Mempool.Store
use ola_os.Mempool.Invariant.{HasInput, IsFiled, AccountIsValid, IsValid, score_at-BelongsTo}
use ola_os.Mempool.Insert.{insert_head, pointers_at, inserted}
use ola_os.Mempool.Pointers.{BelongsTo}
use ola_os.Base.Map.Entries.{All-lookup}
use ola_os.Mempool.Next.{
  sent, after_next, Pointed, pointed, size_pos, sent-AccountIsValid, next_transaction_empty,
  next_transaction_lem,
}
use ola_os.Base.Map.Last.{contains-last}

-- `MempoolIO::rollback`: the nonces are reset, and the transaction is inserted back.
unfoldable pub roll_back : Transaction → MempoolStore → Outcome MempoolStore
roll_back tx s = do t ← Store.rollback tx s; Store.insert (tx ∷ []) [] t

-- The state between the reset and the insertion: the head of the account is missing.
abbrev pub without_head : L2Tx → Map ℕ L2Tx → MempoolStore → MempoolStore
without_head tx txs s = record s {
  l2_transactions_per_account =
      Map.insert tx.common_data.initiator_address
        (record {
          transactions = Map.remove tx.common_data.nonce txs;
          nonce = tx.common_data.nonce;
        })
        s.l2_transactions_per_account;
  l2_priority_queue = Map.remove (Account.score_for_transaction tx) s.l2_priority_queue;
  size = s.size - 1;
}

module _ (s : MempoolStore) (tx : L2Tx) (txs : Map ℕ L2Tx) where
  abbrev pub account : AccountTransactions
  account = record { transactions = txs; nonce = tx.common_data.nonce }

  abbrev pub score : MempoolScore
  score = Account.score_for_transaction tx

  reset-sent :
      tx.common_data.nonce + 1 < u32_mod
      → Account.reset (sent account) (from_l2 tx)
        ≡ returns (
          record account { transactions = Map.remove account.nonce txs },
          Account.score_at (sent account).nonce (sent account),
        )
  unfolding Account.reset Tx.nonce from_l2 wrapping_add32
  reset-sent small =
      let least : min (wrapping_add32 tx.common_data.nonce 1) tx.common_data.nonce
          ≡ tx.common_data.nonce =
        omega arith in
      rw least

  pub rollback_sent :
      tx.common_data.nonce + 1 < u32_mod
      → IsSorted s.l2_transactions_per_account
      → remove_score
          (Account.score_at (sent account).nonce (sent account))
          (after_next score account s).l2_priority_queue
        ≡ Map.remove score s.l2_priority_queue
      → Store.rollback (from_l2 tx) (after_next score account s) ≡ returns (without_head tx txs s)
  unfolding Store.rollback from_l2 Tx.initiator_account Account.score_for_transaction
  rollback_sent small sorted queue = rw (
    lookup-insert_self tx.common_data.initiator_address (sent account)
        s.l2_transactions_per_account,
    reset-sent small,
    queue,
    insert-insert tx.common_data.initiator_address
        (record account { transactions = Map.remove account.nonce txs }) (sent account)
        s.l2_transactions_per_account sorted,
  )

  abbrev pub headless : AccountTransactions
  headless = record account { transactions = Map.remove account.nonce txs }

  entry_without_head :
      Store.entry_or_new tx.common_data.initiator_address [] (without_head tx txs s) ≡ headless
  unfolding Store.entry_or_new
  entry_without_head = rw (
    lookup-insert_self tx.common_data.initiator_address headless s.l2_transactions_per_account,
    Store.entry_or_new,
  )

  pub score_without_head : IsSorted txs → Account.score_at tx.common_data.nonce headless ≡ none
  unfolding Account.score_at
  score_without_head ts = rw (lookup-remove_self tx.common_data.nonce txs ts)

  insert_head_back :
      IsSorted s.l2_transactions_per_account
      → IsSorted s.l2_priority_queue
      → IsSorted txs
      → Map.lookup tx.common_data.initiator_address s.l2_transactions_per_account ≡ some account
      → Map.lookup tx.common_data.nonce txs ≡ some tx
      → contains score s.l2_priority_queue ≡ true
      → 0 < s.size
      → Store.insert_logged tx [] (without_head tx txs s) ≡ s
  unfolding Store.insert_logged Map.add
  insert_head_back ms qs ts found head queued pos =
      let a = tx.common_data.initiator_address in
      let m = s.l2_transactions_per_account in
      rw (entry_without_head, insert_head headless tx refl, score_without_head ts)
        (ground (
          arith,
          insert-insert a account headless m ms,
          insert_same a account m ms found,
          insert-remove tx.common_data.nonce tx txs ts head,
          insert-remove score tt s.l2_priority_queue qs
              (contains-lookup score s.l2_priority_queue queued),
        ))

insert_one :
    (tx : L2Tx) (s : MempoolStore)
    → HasInput tx.common_data
    → Store.insert (from_l2 tx ∷ []) [] s ≡ returns (Store.insert_logged tx [] s)
unfolding Store.insert Store.insert_common from_l2
insert_one tx s signed = rw (inserted tx [] s signed) refl

-- A score of the account that is served is not among the other scores.
absent_without :
    (s : MempoolStore) (p k : MempoolScore)
    → IsValid s
    → contains p s.l2_priority_queue ≡ true
    → k.account ≡ p.account
    → Map.lookup k (Map.remove p s.l2_priority_queue) ≡ none
absent_without s p k v c own = elim (cmp-cases k p) [
  | inl same ↦ rw same (lookup-remove_self p s.l2_priority_queue v.queue_sorted)
  | inr other ↦ rw (lookup-remove_ne k p s.l2_priority_queue other) (
      let pointers = rw ((v.pointers p).0 c) at (pointers_at p.account s k v own) in
      elim (Option-cases (Map.lookup k s.l2_priority_queue)) [
        | inl absent ↦ absent
        | inr (u, found) ↦
            absurd
              (other (ground (arith, pointers.0 (lookup-contains k s.l2_priority_queue found))))
      ])
]

-- Adding a score of the account and removing it again changes nothing.
remove_added :
    (s : MempoolStore) (p : MempoolScore) (new : Option MempoolScore)
    → IsValid s
    → contains p s.l2_priority_queue ≡ true
    → BelongsTo p.account new
    → remove_score new (add_score new (Map.remove p s.l2_priority_queue))
      ≡ Map.remove p s.l2_priority_queue
unfolding Map.add
remove_added s p none v c b = refl
remove_added s p (some k) v c b =
    remove-insert k tt (Map.remove p s.l2_priority_queue)
      (remove-IsSorted p s.l2_priority_queue v.queue_sorted) (absent_without s p k v c b)

module _ (s : MempoolStore) (p : MempoolScore) (d : Pointed s p) (v : IsValid s)
    (c : contains p s.l2_priority_queue ≡ true) where
  pub valid_account : AccountIsValid (p.account, d.txs)
  valid_account =
      All-lookup AccountIsValid p.account s.l2_transactions_per_account v.accounts_valid d.found

  pub own_nonce : d.tx.common_data.nonce ≡ d.txs.nonce
  own_nonce =
      (All-lookup (IsFiled p.account) d.txs.nonce d.txs.transactions valid_account.1 d.head).0

  pub own_account : account s d.tx d.txs.transactions ≡ d.txs
  own_account i = record { transactions = d.txs.transactions; nonce = own_nonce i }

  -- The facts about the score and the account, at the transaction's own score and nonce.
  pub own_contains : contains (score s d.tx d.txs.transactions) s.l2_priority_queue ≡ true
  own_contains = subst (λ q. contains q s.l2_priority_queue ≡ true) (sym d.scored) c

  pub own_valid :
      AccountIsValid (d.tx.common_data.initiator_address, account s d.tx d.txs.transactions)
  unfolding Account.score_for_transaction
  own_valid =
      subst₂ (λ (q : MempoolScore) t. AccountIsValid (q.account, t)) (sym d.scored)
        (sym own_account) valid_account

  pub own_found :
      Map.lookup d.tx.common_data.initiator_address s.l2_transactions_per_account
      ≡ some (account s d.tx d.txs.transactions)
  unfolding Account.score_for_transaction
  own_found =
      subst₂ (λ (q : MempoolScore) t. Map.lookup q.account s.l2_transactions_per_account ≡ some t)
        (sym d.scored) (sym own_account) d.found

  pub own_queue :
      let t = sent (account s d.tx d.txs.transactions) in
      let q = score s d.tx d.txs.transactions in
      remove_score
        (Account.score_at t.nonce t)
        (add_score (Account.score_at t.nonce t) (Map.remove q s.l2_priority_queue))
      ≡ Map.remove q s.l2_priority_queue
  unfolding Account.score_for_transaction
  own_queue =
      let t = account s d.tx d.txs.transactions in
      remove_added s (score s d.tx d.txs.transactions) (Account.score_at (sent t).nonce (sent t)) v
        own_contains
        (score_at-BelongsTo d.tx.common_data.initiator_address (sent t).nonce (sent t)
          (sent-AccountIsValid d.tx.common_data.initiator_address t own_valid))

  roll_back_own :
      d.tx.common_data.nonce + 1 < u32_mod
      → roll_back
          (from_l2 d.tx)
          (after_next (score s d.tx d.txs.transactions) (account s d.tx d.txs.transactions) s)
        ≡ returns s
  unfolding roll_back
  roll_back_own small =
      rw (rollback_sent s d.tx d.txs.transactions small v.accounts_sorted own_queue) (
        rw (insert_one d.tx (without_head d.tx d.txs.transactions s) d.signed) (
          ap returns (
            insert_head_back s d.tx d.txs.transactions v.accounts_sorted v.queue_sorted own_valid.0
              own_found
              (subst (λ n. Map.lookup n d.txs.transactions ≡ some d.tx) (sym own_nonce) d.head)
              own_contains (size_pos s p d v))))

  roll_back_pointed :
      d.tx.common_data.nonce + 1 < u32_mod
      → roll_back (from_l2 d.tx) (after_next p d.txs s) ≡ returns s
  roll_back_pointed small =
      subst₂ (λ q t. roll_back (from_l2 d.tx) (after_next q t s) ≡ returns s) d.scored own_account
        (roll_back_own small)

-- Rolling back the transaction that a valid store has just handed out gives that store back, so the
-- transaction is the next one again. The transaction's nonce is below the greatest `u32`.
pub roll_back-next_transaction :
    (s : MempoolStore) {s' : MempoolStore} {tx : Transaction} (n : ℕ)
    → IsValid s
    → Tx.nonce tx ≡ some n
    → n + 1 < u32_mod
    → Store.next_transaction s ≡ returns (s', some tx)
    → roll_back tx s' ≡ returns s
unfolding Tx.nonce from_l2
roll_back-next_transaction s {s'} {tx} n v own small e =
    elim (Option-cases (last? (keys s.l2_priority_queue))) [
      | inl empty ↦ cc (e, next_transaction_empty s empty)
      | inr (p, last) ↦
          let c = contains-last p s.l2_priority_queue last in
          let d = pointed s p v c in
          let step = next_transaction_lem s p d v last in
          let same_tx : tx ≡ from_l2 d.tx = cc (e, step) in
          let same_store : s' ≡ after_next p d.txs s = cc (e, step) in
          subst₂ (λ x y. roll_back x y ≡ returns s) (sym same_tx) (sym same_store)
            (roll_back_pointed s p d v c (ground (arith, same_tx, own)))
    ]
