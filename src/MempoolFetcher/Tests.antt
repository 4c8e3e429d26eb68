-- ===== src/MempoolFetcher/Tests.antt =====
-- A database that has one transaction for each of two rounds; the world counts the looks at it.
use ola_os.Base.{ℕ, suc, ◌+◌, ◌≡◌, ◌⊎◌, true, false, none, some, refl, [], ◌∷◌, returns, leb}
use ola_os.Types.Tx.{L2Tx, ola_raw_transaction, from_l2}
use ola_os.Mempool.Store.{new}
use ola_os.Mempool.Invariant.{IsValid, new-IsValid}
use ola_os.MempoolFetcher.{FetcherIo, Fetched, run}
use ola_os.MempoolFetcher.Safe.{IsSafe, run-IsValid}

abbrev tx : ℕ → L2Tx
tx nonce = record {
  execute = record { contract_address = 1; calldata = []; factory_deps = none };
  common_data = record {
    nonce = nonce;
    initiator_address = 7;
    signature = [];
    transaction_type = ola_raw_transaction;
    input = some (record { hash = 70 + nonce; bytes = [] });
  };
  received_timestamp_ms = 40 + nonce;
}

abbrev io : FetcherIo ℕ
io = record {
  stop_requested = λ w. leb 2 w;
  remove_stuck_txs = λ w. w;
  reset_mempool = λ w. w;
  access_storage = λ w s. (w, s);
  sleep = λ w s. (w, s);
  sync_mempool = λ stashed purged size w s. ((suc w, s), (from_l2 (tx w) ∷ [], []));
}

io-IsSafe : IsSafe io
unfolding from_l2
io-IsSafe = record {
  access = λ w s v. v;
  sleeps = λ w s v. v;
  syncs = λ stashed purged size w s v. v;
  loads = λ stashed purged size w s. (refl, tt);
}

run-IsValid_example :
    (f : Fetched ℕ) × (run io 5 true 4 0 (new 0 9) ≡ returns f)
    × IsValid f.mempool
    × ((f.ended ≡ false) ⊎ (io.stop_requested f.world ≡ true))
run-IsValid_example = run-IsValid io 5 true 4 0 (new 0 9) io-IsSafe (new-IsValid 0 9)
