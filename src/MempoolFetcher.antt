-- ===== src/MempoolFetcher.antt =====
-- The task that fills the mempool from the database (ola_core/src/sequencer/mempool_actor.rs, with
-- the guard of ola_core/src/sequencer/types.rs). What it drives is an interface over a world: the
-- database, the stop signal and the other tasks, which change the mempool while the task awaits.
pub mod Safe
mod Tests
use ola_os.Base.{
  ℕ, zero, suc, Bool, true, false, not, List, [], ◌∷◌, Outcome, returns, panics, ◌>>=◌, ltb, length,
  if◌then◌else◌,
}
use ola_os.Base.Map.{Map}
use ola_os.Types.Tx.{Transaction, hash}
use ola_os.Mempool.Store.{MempoolStore, get_mempool_info, insert}

pub record FetcherIo (W : Type 0) : Type 0 where
  pub stop_requested : W → Bool
  pub remove_stuck_txs : W → W
  pub reset_mempool : W → W
  -- Waiting for a connection, and sleeping.
  pub access_storage : W → MempoolStore → W × MempoolStore
  pub sleep : W → MempoolStore → W × MempoolStore
  -- The accounts that are stashed and purged, and the most transactions to return.
  pub sync_mempool :
      List ℕ → List ℕ → ℕ → W → MempoolStore → (W × MempoolStore) × (List Transaction × Map ℕ ℕ)

-- A world and a mempool, and whether the task has ended.
pub record Fetched (W : Type 0) : Type 0 where
  pub ended : Bool
  pub world : W
  pub mempool : MempoolStore

-- The hash of each transaction, which is logged.
unfoldable pub log_transactions : List Transaction → Outcome (Unit {0})
unfolding hash
log_transactions [] = returns tt
log_transactions (tx ∷ transactions) = do tx_hash ← hash tx; log_transactions transactions

module _ {W : Type 0} (io : FetcherIo W) (sync_batch_size : ℕ) where
  abbrev pub sleep_if : Bool → W → MempoolStore → W × MempoolStore
  sleep_if true w s = io.sleep w s
  sleep_if false w s = (w, s)

  -- One round of the loop after its look at the stop signal.
  unfoldable pub fetch : W → MempoolStore → Outcome (W × MempoolStore)
  unfolding log_transactions
  fetch w s =
      let (w1, s1) = io.access_storage w s in
      let (s2, mempool_info) = get_mempool_info s1 in
      let ((w3, s3), (transactions, nonces)) =
        io.sync_mempool mempool_info.stashed_accounts mempool_info.purged_accounts sync_batch_size
          w1 s2 in
      let all_transactions_loaded = ltb (length transactions) sync_batch_size in
      log_transactions transactions >>= λ logged.
      insert transactions nonces s3 >>= λ s4. returns (sleep_if all_transactions_loaded w3 s4)

  -- The loop, for at most a number of rounds.
  unfoldable pub fetch_loop : ℕ → W → MempoolStore → Outcome (Fetched W)
  unfolding fetch
  fetch_loop zero w s = returns (record { ended = false; world = w; mempool = s })
  fetch_loop (suc n) w s = elim (io.stop_requested w) [
    | true ↦ returns (record { ended = true; world = w; mempool = s })
    | false ↦ fetch w s >>= λ r. fetch_loop n r.0 r.1
  ]

  -- `MempoolFetcher::run`
  unfoldable pub run : Bool → ℕ → W → MempoolStore → Outcome (Fetched W)
  unfolding fetch_loop
  run remove_stuck_txs n w s =
      let (w1, s1) = io.access_storage w s in
      let w2 = if remove_stuck_txs then io.remove_stuck_txs w1 else w1 in
      fetch_loop n (io.reset_mempool w2) s1
