-- ===== src/Mempool/Invariant.antt =====
-- What every reachable mempool satisfies: the queue points exactly at the transactions that
-- stand at their account's nonce, the size counts the stored transactions, and these have hashes.
use ola_os.Base.{
  ℕ, ◌≡◌, ◌≢◌, ◌↔◌, inl, inr, Option-cases, Option, none, some, true, All, arith, is_some, refl,
  ◌+◌,
}
use ola_os.Base.Order.{nat_ord}
use ola_os.Base.Map
use ola_os.Base.Map.{Map, Set, contains, IsSorted}
use ola_os.Base.Map.Laws.{lookup-insert_self, lookup-insert_ne, cmp-cases}
use ola_os.Base.Map.Entries.{sum_by, weight, All-lookup, All-insert, sum_by-insert}
use ola_os.Base.Map.Sorted.{insert-IsSorted}
use ola_os.Types.Tx.{L2Tx, L2TxCommonData}
use ola_os.Mempool.Account.{AccountTransactions, MempoolScore, score_ord}
use ola_os.Mempool.Account
use ola_os.Mempool.Store.{MempoolStore}
use ola_os.Mempool.Store
use ola_os.Mempool.Pointers.{BelongsTo}

-- The score of the transaction that the account sends next.
abbrev pub head_score : Option AccountTransactions → Option MempoolScore
head_score none = none
head_score (some t) = Account.score_at t.nonce t

-- A transaction that has an input has a hash.
abbrev pub HasInput : L2TxCommonData → Type 0
HasInput d = is_some d.input ≡ true

-- Transactions are filed under their own nonce and sender, and have hashes.
abbrev pub IsFiled : ℕ → ℕ × L2Tx → Type 0
IsFiled a (n, tx) =
    (tx.common_data.nonce ≡ n) × (tx.common_data.initiator_address ≡ a) × HasInput tx.common_data

abbrev pub AccountIsValid : ℕ × AccountTransactions → Type 0
AccountIsValid (a, t) = IsSorted t.transactions × All (IsFiled a) t.transactions

abbrev pub Points : Map ℕ AccountTransactions → Set MempoolScore → Type 0
Points m q =
    (p : MempoolScore) → (contains p q ≡ true) ↔ (head_score (Map.lookup p.account m) ≡ some p)

pub record IsValid (s : MempoolStore) : Type 0 where
  pub accounts_sorted : IsSorted s.l2_transactions_per_account
  pub queue_sorted : IsSorted s.l2_priority_queue
  pub accounts_valid : All AccountIsValid s.l2_transactions_per_account
  pub pointers : Points s.l2_transactions_per_account s.l2_priority_queue
  pub counted : s.size ≡ sum_by Account.len s.l2_transactions_per_account

pub new-IsValid : (n c : ℕ) → IsValid (Store.new n c)
unfolding Store.new sum_by contains Map.lookup
new-IsValid n c = record {
  accounts_sorted = tt;
  queue_sorted = tt;
  accounts_valid = tt;
  pointers = λ p. ((λ h. cc), (λ h. cc));
  counted = refl;
}

-- A transaction that is filed has the sender as the account of its score.
pub score_at-account :
    (a n : ℕ) (t : AccountTransactions) {p : MempoolScore}
    → AccountIsValid (a, t)
    → Account.score_at n t ≡ some p
    → p.account ≡ a
unfolding Account.score_at Account.score_for_transaction
score_at-account a n t v e = elim (Option-cases (Map.lookup n t.transactions)) [
  | inl missing ↦ ground (arith)
  | inr (tx, found) ↦ ground (arith, All-lookup (IsFiled a) n t.transactions v.1 found)
]

-- Replacing an account and its pointer keeps the queue right.
pub Points-replace :
    (a : ℕ) (t : AccountTransactions) (m : Map ℕ AccountTransactions) (q q' : Set MempoolScore)
    → Points m q
    → ((p : MempoolScore)
        → p.account ≡ a
        → (contains p q' ≡ true) ↔ (Account.score_at t.nonce t ≡ some p))
    → ((p : MempoolScore) → p.account ≢ a → contains p q' ≡ contains p q)
    → Points (Map.insert a t m) q'
Points-replace a t m q q' h own others p = elim (cmp-cases p.account a) [
  | inl same ↦
      let found : Map.lookup p.account (Map.insert a t m) ≡ some t =
        rw same (lookup-insert_self a t m) in
      rw found (own p same)
  | inr other ↦ rw (lookup-insert_ne p.account a t m other, others p other) (h p)
]

pub score_at-BelongsTo :
    (a n : ℕ) (t : AccountTransactions) → AccountIsValid (a, t) → BelongsTo a (Account.score_at n t)
score_at-BelongsTo a n t v = elim (Option-cases (Account.score_at n t)) [
  | inl e ↦ rw e tt
  | inr (p, e) ↦ rw e (score_at-account a n t v e)
]

-- One account is replaced, and its pointer with it.
pub replace-IsValid :
    (s : MempoolStore) (a : ℕ) (t : AccountTransactions) (q : Set MempoolScore) (n : ℕ)
    → IsValid s
    → AccountIsValid (a, t)
    → IsSorted q
    → ((p : MempoolScore)
        → p.account ≡ a
        → (contains p q ≡ true) ↔ (Account.score_at t.nonce t ≡ some p))
    → ((p : MempoolScore) → p.account ≢ a → contains p q ≡ contains p s.l2_priority_queue)
    → n + weight Account.len (Map.lookup a s.l2_transactions_per_account) ≡ s.size + Account.len t
    → IsValid (record s {
      l2_transactions_per_account = Map.insert a t s.l2_transactions_per_account;
      l2_priority_queue = q;
      size = n;
    })
replace-IsValid s a t q n v ok sorted own others counted = record {
  accounts_sorted = insert-IsSorted a t s.l2_transactions_per_account v.accounts_sorted;
  queue_sorted = sorted;
  accounts_valid = All-insert AccountIsValid a t s.l2_transactions_per_account ok v.accounts_valid;
  pointers =
      Points-replace a t s.l2_transactions_per_account s.l2_priority_queue q v.pointers own others;
  counted = omega (
    arith,
    counted,
    v.counted,
    sum_by-insert Account.len a t s.l2_transactions_per_account v.accounts_sorted,
  );
}

-- A head belongs to its account.
pub head_account :
    (a : ℕ) (s : MempoolStore) (p : MempoolScore)
    → IsValid s
    → head_score (Map.lookup a s.l2_transactions_per_account) ≡ some p
    → p.account ≡ a
head_account a s p v e = elim (Option-cases (Map.lookup a s.l2_transactions_per_account)) [
  | inl absent ↦ ground (arith, absent)
  | inr (t, found) ↦
      score_at-account a t.nonce t
        (All-lookup AccountIsValid a s.l2_transactions_per_account v.accounts_valid found)
        (rw found at e)
]
