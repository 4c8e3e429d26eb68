-- ===== src/MempoolIo/Tests.antt =====
-- Waiting with small numbers.
use ola_os.Base.{
  ℕ, ◌-◌, ◌*◌, ◌/◌, ◌<◌, ◌≤◌, ◌≡◌, ◌⊎◌, refl, Option, none, some, [], ◌∷◌, returns, panics, arith,
}
use ola_os.Types.Tx.{Transaction}
use ola_os.Mempool.Store.{MempoolStore}
use ola_os.Mempool.Store
use ola_os.Mempool.Invariant.{IsValid, new-IsValid}
use ola_os.Mempool.Insert.{insert_logged-IsValid}
use ola_os.Mempool.Next.{Serves}
use ola_os.Types.Tx.{L2Tx, TransactionType}
use ola_os.Base.Map
use ola_os.Mempool.Account
use ola_os.MempoolIo.{wait, sleep_past, poll_iters, wait_for_next_tx}
use ola_os.MempoolIo.Clock.{sleep_past_lem}
use ola_os.MempoolIo.Poll.{poll_iters_lem, wait_for_next_tx-IsValid, wait_for_next_tx-Serves}

-- 501 milliseconds before the second 8 begins, and a timestamp two seconds ahead.
wait_run : wait 9 7500 ≡ 2501
unfolding wait
wait_run = refl

sleep_past_lem_example :
    (current : ℕ) × (sleep_past 9 (7500 ∷ 10001 ∷ []) ≡ some current)
    × ((current ≡ 7500 / 1000) ⊎ (current ≡ 10001 / 1000))
    × (9 < current)
sleep_past_lem_example =
    sleep_past_lem 9 7500 10001 [] (omega arith) (omega arith) (rw wait_run (omega arith))

abbrev delay : ℕ
delay = 100

poll_iters_lem_example :
    ((delay ≡ 0) × (poll_iters delay 1050 ≡ panics))
    ⊎ ((n : ℕ) × (poll_iters delay 1050 ≡ returns n)
        × (1050 ≤ n * delay)
        × ((n ≡ 1) ⊎ ((n - 1) * delay < 1050))
        × (1 ≤ n))
poll_iters_lem_example = poll_iters_lem delay 1050 (omega arith)

eleven : poll_iters 100 1050 ≡ returns 11
unfolding poll_iters
eleven = refl

abbrev tx : L2Tx
tx = record {
  execute = record { contract_address = 1; calldata = []; factory_deps = none };
  common_data = record {
    nonce = 0;
    initiator_address = 5;
    signature = [];
    transaction_type = TransactionType.ola_raw_transaction;
    input = some (record { hash = 70; bytes = [] });
  };
  received_timestamp_ms = 30;
}

abbrev store : MempoolStore
store = Store.insert_logged tx [] (Store.new 0 4)

store-IsValid : IsValid store
store-IsValid = insert_logged-IsValid tx [] (Store.new 0 4) refl (new-IsValid 0 4)

abbrev inserting : ℕ → MempoolStore → MempoolStore
inserting i s = Store.insert_logged tx [] s

wait_for_next_tx-IsValid_example :
    (s' : MempoolStore) × (r : Option Transaction) × (wait_for_next_tx 100 1050 inserting
        (Store.new 0 4)
      ≡ returns (s', r))
    × IsValid s'
wait_for_next_tx-IsValid_example =
    wait_for_next_tx-IsValid 100 1050 inserting (Store.new 0 4) (omega arith) (omega arith)
      (λ i t v. insert_logged-IsValid tx [] t refl v) (new-IsValid 0 4)

wait_for_next_tx-Serves_example :
    (s' : MempoolStore) × (tx' : Transaction) × (wait_for_next_tx 100 1050 inserting store
      ≡ returns (s', some tx'))
    × IsValid s'
    × Serves store (some tx')
wait_for_next_tx-Serves_example =
    wait_for_next_tx-Serves 100 1050 inserting store (omega arith) (omega arith) store-IsValid (
      unfold Store.has_next Store.insert_logged Store.entry_or_new Store.new Account.new
        Account.insert Account.score_at Account.score_for_transaction Map.lookup Map.insert Map.add
        Map.remove Map.keys in
      refl)
