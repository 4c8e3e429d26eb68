-- ===== src/Mempool/Reject.antt =====
-- A transaction that the sequencer rejects (`MempoolIO::reject` of
-- ola_core/src/sequencer/io/mempool.rs, with its entry in the database).
use ola_os.Base.{
  ℕ, ◌+◌, ◌-◌, ◌<◌, ◌≡◌, ◌↔◌, refl, sym, ap, subst, subst₂, ◌∙◌, inl, inr, Option-cases, none, some,
  true, false, List, [], ◌∷◌, ◌++◌, ◌>>=◌, arith, Outcome, returns, last?,
}
use ola_os.Base.Order.{nat_ord}
use ola_os.Base.Words.{u32_mod}
use ola_os.Base.Map
use ola_os.Base.Map.{keys, contains, IsSorted}
use ola_os.Base.Map.Entries.{All-remove}
use ola_os.Base.Map.Sorted.{remove-IsSorted}
use ola_os.Base.Map.Sorted.{length-remove}
use mathlib.Core.Option
use ola_os.Base.Map.Last.{contains-last}
use ola_os.Types.Tx.{Transaction, from_l2}
use ola_os.Types.Tx
use ola_os.Mempool.Account.{MempoolScore, score_ord}
use ola_os.Mempool.Account
use ola_os.Mempool.Store.{MempoolStore}
use ola_os.Mempool.Store
use ola_os.Mempool.Invariant.{head_score, IsFiled, AccountIsValid, IsValid, replace-IsValid}
use ola_os.Mempool.Insert.{pointers_at}
use ola_os.Mempool.Pointers.{exchange_own, exchange_ne, remove_score_own}
use ola_os.Mempool.Next.{
  after_next, Pointed, pointed, size_pos, next_transaction_empty, next_transaction_lem,
}
use ola_os.Mempool.Rollback.{
  without_head, account, score, headless, rollback_sent, score_without_head, own_nonce, own_account,
  own_valid, own_found, own_queue,
}

-- `mark_tx_as_rejected`: the hash and the error that the database gets.
pub record Rejection : Type 0 where
  pub transaction_hash : ℕ
  pub error : List ℕ

-- "rejected: "
abbrev pub rejected_prefix : List ℕ
rejected_prefix = 114 ∷ 101 ∷ 106 ∷ 101 ∷ 99 ∷ 116 ∷ 101 ∷ 100 ∷ 58 ∷ 32 ∷ []

-- The nonces are reset, the transaction is not inserted back, and the database learns of it.
unfoldable pub reject : Transaction → List ℕ → MempoolStore → Outcome (MempoolStore × Rejection)
reject rejected error s = do
  t ← Store.rollback rejected s
  transaction_hash ← Tx.hash rejected
  returns (t, record { transaction_hash = transaction_hash; error = rejected_prefix ++ error })

module _ (s : MempoolStore) (p : MempoolScore) (d : Pointed s p) (v : IsValid s)
    (c : contains p s.l2_priority_queue ≡ true) where
  headless-AccountIsValid :
      AccountIsValid (d.tx.common_data.initiator_address, headless s d.tx d.txs.transactions)
  headless-AccountIsValid =
      let ok = own_valid s p d v c in
      (
        remove-IsSorted d.tx.common_data.nonce d.txs.transactions ok.0,
        All-remove (IsFiled d.tx.common_data.initiator_address) d.tx.common_data.nonce
            d.txs.transactions ok.1,
      )

  own_head : Map.lookup d.tx.common_data.nonce d.txs.transactions ≡ some d.tx
  own_head =
      subst (λ n. Map.lookup n d.txs.transactions ≡ some d.tx) (sym (own_nonce s p d v c)) d.head

  own_score :
      head_score (Map.lookup d.tx.common_data.initiator_address s.l2_transactions_per_account)
      ≡ some (score s d.tx d.txs.transactions)
  unfolding Account.score_at
  own_score =
      ap head_score (own_found s p d v c) ∙ ap (Option.map Account.score_for_transaction) own_head

  own_pointer :
      (q : MempoolScore)
      → q.account ≡ d.tx.common_data.initiator_address
      → (contains q s.l2_priority_queue ≡ true) ↔ (some (score s d.tx d.txs.transactions) ≡ some q)
  own_pointer q own =
      subst (λ h. (contains q s.l2_priority_queue ≡ true) ↔ (h ≡ some q)) own_score
        (pointers_at d.tx.common_data.initiator_address s q v own)

  without_head-IsValid : IsValid (without_head d.tx d.txs.transactions s)
  unfolding Account.len Account.score_for_transaction
  without_head-IsValid =
      let a = d.tx.common_data.initiator_address in
      let t = headless s d.tx d.txs.transactions in
      let k = score s d.tx d.txs.transactions in
      let gone = score_without_head s d.tx d.txs.transactions (own_valid s p d v c).0 in
      replace-IsValid s a t (Map.remove k s.l2_priority_queue) (s.size - 1) v
        headless-AccountIsValid (remove-IsSorted k s.l2_priority_queue v.queue_sorted)
        (λ r own.
          subst (λ h. (contains r (Map.remove k s.l2_priority_queue) ≡ true) ↔ (h ≡ some r))
            (sym gone)
            (exchange_own (some k) none s.l2_priority_queue r v.queue_sorted (own_pointer r own)))
        (λ r other. exchange_ne a (some k) none s.l2_priority_queue r refl tt other)
        (ground (
          arith,
          own_found s p d v c,
          own_head,
          length-remove d.tx.common_data.nonce d.txs.transactions,
          size_pos s p d v,
        ))

  -- What rejecting the transaction comes to.
  abbrev Rejects : List ℕ → MempoolStore → Type 0
  Rejects error s' =
      (h : ℕ) × (Tx.hash (from_l2 d.tx) ≡ returns h)
      × (reject (from_l2 d.tx) error s'
          ≡ returns (
            without_head d.tx d.txs.transactions s,
            record { transaction_hash = h; error = rejected_prefix ++ error },
          ))

  own_hash : (h : ℕ) × (Tx.hash (from_l2 d.tx) ≡ returns h)
  unfolding Tx.hash Tx.hash_of Tx.l2_hash from_l2
  own_hash = elim (Option-cases d.tx.common_data.input) [
    | inl missing ↦ absurd (ground (arith, missing, d.signed))
    | inr (input, found) ↦ (input.hash, rw found refl)
  ]

  reject_own :
      (error : List ℕ)
      → d.tx.common_data.nonce + 1 < u32_mod
      → Rejects error
          (after_next (score s d.tx d.txs.transactions) (account s d.tx d.txs.transactions) s)
  unfolding reject
  reject_own error small =
      let (h, hashed) = own_hash in
      (
        h,
        hashed,
        rw
            (
              rollback_sent s d.tx d.txs.transactions small v.accounts_sorted (own_queue s p d v c),
              hashed,
            )
            refl,
      )

  reject_pointed :
      (error : List ℕ) → d.tx.common_data.nonce + 1 < u32_mod → Rejects error (after_next p d.txs s)
  reject_pointed error small =
      subst₂ (λ q t. Rejects error (after_next q t s)) d.scored (own_account s p d v c)
        (reject_own error small)

  without_head_waits :
      (q : MempoolScore)
      → q.account ≡ d.tx.common_data.initiator_address
      → contains q (without_head d.tx d.txs.transactions s).l2_priority_queue ≡ false
  unfolding Account.score_for_transaction
  without_head_waits q own =
      remove_score_own (some (score s d.tx d.txs.transactions)) s.l2_priority_queue q v.queue_sorted
        (own_pointer q own)

-- Rejecting the transaction that a valid store has just handed out does not panic, leaves a valid
-- store with one transaction less, and tells the database the hash of the transaction with the
-- error. The account has no pointer in the queue then, so none of its other transactions is handed
-- out next. The nonce is below the greatest `u32`.
pub reject-next_transaction :
    (s : MempoolStore) {s' : MempoolStore} {tx : Transaction} (n : ℕ) (error : List ℕ)
    → IsValid s
    → Tx.nonce tx ≡ some n
    → n + 1 < u32_mod
    → Store.next_transaction s ≡ returns (s', some tx)
    → (t : MempoolStore) × (h : ℕ) × (Tx.hash tx ≡ returns h)
      × (reject tx error s'
          ≡ returns (t, record { transaction_hash = h; error = rejected_prefix ++ error }))
      × IsValid t
      × (t.size + 1 ≡ s.size)
      × ((q : MempoolScore)
          → q.account ≡ Tx.initiator_account tx
          → contains q t.l2_priority_queue ≡ false)
unfolding Tx.nonce from_l2 Tx.initiator_account
reject-next_transaction s {s'} {tx} n error v own small e =
    elim (Option-cases (last? (keys s.l2_priority_queue))) [
      | inl empty ↦ cc (e, next_transaction_empty s empty)
      | inr (p, last) ↦
          let c = contains-last p s.l2_priority_queue last in
          let d = pointed s p v c in
          let step = next_transaction_lem s p d v last in
          let same_tx : tx ≡ from_l2 d.tx = cc (e, step) in
          let same_store : s' ≡ after_next p d.txs s = cc (e, step) in
          let (h, hashed, rejects) =
            reject_pointed s p d v c error (ground (arith, same_tx, own)) in
          (
            without_head d.tx d.txs.transactions s,
            h,
            ap Tx.hash same_tx ∙ hashed,
            subst₂
                (λ x y.
                  reject x error y
                  ≡ returns (
                    without_head d.tx d.txs.transactions s,
                    record { transaction_hash = h; error = rejected_prefix ++ error },
                  ))
                (sym same_tx) (sym same_store) rejects,
            without_head-IsValid s p d v c,
            omega (arith, size_pos s p d v),
            λ q same_account.
                without_head_waits s p d v c q (ground (arith, same_tx, same_account)),
          )
    ]
