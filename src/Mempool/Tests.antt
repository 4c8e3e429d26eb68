-- ===== src/Mempool/Tests.antt =====
-- Witnesses and runs of the mempool.
use ola_os.Base.{
  ℕ, ◌+◌, ◌≡◌, refl, false, Option, none, some, List, [], ◌∷◌, arith, ◌*◌, ◌++◌, returns, ltb, ◌||◌,
  if◌then◌else◌,
}
use ola_os.Base.Map
use ola_os.Base.Map.{contains, keys, below, from}
use ola_os.Base.Words.{wrapping_add32}
use ola_os.Base.Order.{nat_ord}
use ola_os.Types.Tx.{L2Tx, Transaction, ola_raw_transaction, from_l2}
use ola_os.Types.Tx
use ola_os.Mempool.Account.{MempoolScore, score_ord}
use ola_os.Mempool.Account
use ola_os.Mempool.Store.{MempoolStore}
use ola_os.Mempool.Store
use ola_os.Mempool.Invariant.{IsValid, new-IsValid}
use ola_os.Mempool.Insert.{insert_logged-IsValid, insert-IsValid}
use ola_os.Mempool.Next.{after_next, next_transaction-IsValid, next_transaction-Serves, Serves}
use ola_os.Mempool.Reject.{reject, rejected_prefix, reject-next_transaction}
use ola_os.Mempool.Rollback.{roll_back, roll_back-next_transaction}
use ola_os.Mempool.Collect.{can_serve, get_mempool_info-IsValid, get_mempool_info_purges}

abbrev tx : ℕ → ℕ → ℕ → L2Tx
tx account nonce time = record {
  execute = record { contract_address = 1; calldata = []; factory_deps = none };
  common_data = record {
    nonce = nonce;
    initiator_address = account;
    signature = [];
    transaction_type = ola_raw_transaction;
    input = some (record { hash = 100 * account + nonce; bytes = [] });
  };
  received_timestamp_ms = time;
}

-- Account 7 has two transactions, account 9 an older one, account 5 one that must wait.
abbrev batch : List Transaction
batch = from_l2 (tx 7 0 50) ∷ from_l2 (tx 7 1 51) ∷ from_l2 (tx 9 3 40) ∷ from_l2 (tx 5 2 30) ∷ []

abbrev nonces : Map.Map ℕ ℕ
nonces = (9, 3) ∷ []

abbrev store : MempoolStore
store = Store.insert_logged (tx 5 2 30) nonces (
    Store.insert_logged (tx 9 3 40) nonces (
      Store.insert_logged (tx 7 1 51) nonces
        (Store.insert_logged (tx 7 0 50) nonces (Store.new 0 4))))

store-IsValid : IsValid store
store-IsValid = insert_logged-IsValid (tx 5 2 30) nonces _ refl (
    insert_logged-IsValid (tx 9 3 40) nonces _ refl (
      insert_logged-IsValid (tx 7 1 51) nonces _ refl
        (insert_logged-IsValid (tx 7 0 50) nonces _ refl (new-IsValid 0 4))))

insert-IsValid_example :
    (s : MempoolStore) × (Store.insert batch nonces (Store.new 0 4) ≡ returns s) × IsValid s
unfolding from_l2
insert-IsValid_example =
    insert-IsValid batch nonces (Store.new 0 4) (refl, (refl, (refl, (refl, tt)))) (new-IsValid 0 4)

abbrev after_first : MempoolStore
after_first =
    after_next (record { account = 9; received_at_ms = 40 })
      (record { transactions = (3, tx 9 3 40) ∷ []; nonce = 3 }) store

-- The transaction of account 9 is the oldest one that can be sent.
store_next : Store.next_transaction store ≡ returns (after_first, some (from_l2 (tx 9 3 40)))
unfolding Store.next_transaction Store.stash Store.insert_logged Store.entry_or_new Store.new
    Account.new Account.insert Account.next Account.len Account.score_at
    Account.score_for_transaction Map.lookup Map.insert Map.remove Map.add below from keys
    wrapping_add32 from_l2 Tx.l2_hash
store_next = refl

next_transaction-IsValid_example :
    (s' : MempoolStore) × (r : Option Transaction) × (Store.next_transaction store
      ≡ returns (s', r))
    × IsValid s'
    × (s'.stashed_accounts ≡ store.stashed_accounts)
next_transaction-IsValid_example = next_transaction-IsValid store store-IsValid

next_transaction-Serves_example : Serves store (some (from_l2 (tx 9 3 40)))
next_transaction-Serves_example =
    next_transaction-Serves store (some (from_l2 (tx 9 3 40))) store-IsValid store_next

roll_back-next_transaction_example : roll_back (from_l2 (tx 9 3 40)) after_first ≡ returns store
roll_back-next_transaction_example =
    roll_back-next_transaction store {s' = after_first} {tx = from_l2 (tx 9 3 40)} 3 store-IsValid
      (unfold Tx.nonce from_l2 in refl) (omega arith) store_next

get_mempool_info-IsValid_example :
    let (s', info) = Store.get_mempool_info store in
    IsValid s'
    × (s'.stashed_accounts ≡ [])
    × (info.stashed_accounts ≡ store.stashed_accounts)
    × (s'.l2_priority_queue ≡ store.l2_priority_queue)
get_mempool_info-IsValid_example = get_mempool_info-IsValid store store-IsValid

-- The store is full, and account 5 has no transaction at its nonce.
get_mempool_info_purges_example :
    Map.lookup 5 (Store.get_mempool_info store).0.l2_transactions_per_account ≡ (
      if ltb store.size store.capacity || can_serve 5 store
      then Map.lookup 5 store.l2_transactions_per_account
      else none)
get_mempool_info_purges_example = get_mempool_info_purges 5 store store-IsValid

info_run : (Store.get_mempool_info store).1.purged_accounts ≡ 5 ∷ []
unfolding Store.get_mempool_info Store.gc Store.queued_accounts Store.drained Store.kept
    Store.insert_logged Store.entry_or_new Store.new Account.new Account.insert Account.len
    Account.score_at Account.score_for_transaction Map.lookup Map.insert Map.remove Map.add contains
    keys
info_run = refl

reject-next_transaction_example :
    (t : MempoolStore) × (h : ℕ) × (Tx.hash (from_l2 (tx 9 3 40)) ≡ returns h)
    × (reject (from_l2 (tx 9 3 40)) (110 ∷ []) after_first
        ≡ returns (t, record { transaction_hash = h; error = rejected_prefix ++ 110 ∷ [] }))
    × IsValid t
    × (t.size + 1 ≡ store.size)
    × ((q : MempoolScore)
        → q.account ≡ Tx.initiator_account (from_l2 (tx 9 3 40))
        → contains q t.l2_priority_queue ≡ false)
reject-next_transaction_example =
    reject-next_transaction store {s' = after_first} {tx = from_l2 (tx 9 3 40)} 3 (110 ∷ [])
      store-IsValid (unfold Tx.nonce from_l2 in refl) (omega arith) store_next
