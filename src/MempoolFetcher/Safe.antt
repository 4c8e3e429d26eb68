-- ===== src/MempoolFetcher/Safe.antt =====
-- The task keeps the mempool valid (ola_core/src/sequencer/mempool_actor.rs).
use ola_os.Base.{
  ℕ, zero, suc, ◌≡◌, refl, inl, inr, ◌⊎◌, Bool, true, false, Bool-cases, Option-cases, arith, List,
  [], ◌∷◌, All, returns, ltb, length, if◌then◌else◌,
}
use ola_os.Types.Tx.{
  Transaction, ExecuteTransactionCommon, l2, protocol_upgrade, hash, hash_of, l2_hash,
}
use ola_os.Mempool.Store.{MempoolStore, get_mempool_info}
use ola_os.Mempool.Invariant.{IsValid}
use ola_os.Mempool.Insert.{IsL2, insert-IsValid}
use ola_os.Mempool.Collect.{get_mempool_info-IsValid}
use ola_os.MempoolFetcher.{FetcherIo, Fetched, log_transactions, sleep_if, fetch, fetch_loop, run}

-- The other tasks keep the mempool valid, and the database has L2 transactions with inputs.
pub record IsSafe {W : Type 0} (io : FetcherIo W) : Type 0 where
  pub access : (w : W) (s : MempoolStore) → IsValid s → IsValid (io.access_storage w s).1
  pub sleeps : (w : W) (s : MempoolStore) → IsValid s → IsValid (io.sleep w s).1
  pub syncs :
      (stashed purged : List ℕ) (size : ℕ) (w : W) (s : MempoolStore)
      → IsValid s
      → IsValid (io.sync_mempool stashed purged size w s).0.1
  pub loads :
      (stashed purged : List ℕ) (size : ℕ) (w : W) (s : MempoolStore)
      → All (λ tx. IsL2 tx.common_data) (io.sync_mempool stashed purged size w s).1.0

logged : (d : ExecuteTransactionCommon) → IsL2 d → (h : ℕ) × (hash_of d ≡ returns h)
unfolding hash_of l2_hash
logged (l2 d) h = elim (Option-cases d.input) [
  | inl missing ↦ absurd (ground (arith, missing, h))
  | inr (input, found) ↦ (input.hash, rw found refl)
]
logged (protocol_upgrade d) h = absurd h

log_transactions_lem :
    (txs : List Transaction)
    → All (λ tx. IsL2 tx.common_data) txs
    → log_transactions txs ≡ returns tt
unfolding log_transactions hash
log_transactions_lem [] h = refl
log_transactions_lem (tx ∷ txs) h =
    let (n, hashed) = logged tx.common_data h.0 in rw hashed (log_transactions_lem txs h.1)

module _ {W : Type 0} (io : FetcherIo W) (sync_batch_size : ℕ) (safe : IsSafe io) where
  sleep_if-IsValid :
      (b : Bool) (w : W) (s : MempoolStore)
      → IsValid s
      → IsValid (sleep_if io sync_batch_size b w s).1
  sleep_if-IsValid true w s v = safe.sleeps w s v
  sleep_if-IsValid false w s v = v

  fetch-IsValid :
      (w : W) (s : MempoolStore)
      → IsValid s
      → (r : W × MempoolStore) × (fetch io sync_batch_size w s ≡ returns r) × IsValid r.1
  unfolding fetch
  fetch-IsValid w s v =
      let r1 = io.access_storage w s in
      let g = get_mempool_info r1.1 in
      let r3 = io.sync_mempool g.1.stashed_accounts g.1.purged_accounts sync_batch_size r1.0 g.0 in
      let valid = (get_mempool_info-IsValid r1.1 (safe.access w s v)).0 in
      let (s4, e, valid') =
        insert-IsValid r3.1.0 r3.1.1 r3.0.1
          (safe.loads g.1.stashed_accounts g.1.purged_accounts sync_batch_size r1.0 g.0)
          (safe.syncs g.1.stashed_accounts g.1.purged_accounts sync_batch_size r1.0 g.0 valid) in
      let b = ltb (length r3.1.0) sync_batch_size in
      (
        sleep_if io sync_batch_size b r3.0.0 s4,
        rw
            (
              log_transactions_lem r3.1.0
                  (safe.loads g.1.stashed_accounts g.1.purged_accounts sync_batch_size r1.0 g.0),
              e,
            )
            refl,
        sleep_if-IsValid b r3.0.0 s4 valid',
      )

  fetch_loop-IsValid :
      (n : ℕ) (w : W) (s : MempoolStore)
      → IsValid s
      → (f : Fetched W) × (fetch_loop io sync_batch_size n w s ≡ returns f)
        × IsValid f.mempool
        × ((f.ended ≡ false) ⊎ (io.stop_requested f.world ≡ true))
  unfolding fetch_loop
  fetch_loop-IsValid zero w s v =
      (record { ended = false; world = w; mempool = s }, refl, v, inl refl)
  fetch_loop-IsValid (suc n) w s v = elim (Bool-cases (io.stop_requested w)) [
    | inl stop ↦
        (record { ended = true; world = w; mempool = s }, rw (stop, fetch_loop) refl, v, inr stop)
    | inr go ↦
        let (r, e, valid) = fetch-IsValid w s v in
        let (f, e', valid', stopped) = fetch_loop-IsValid n r.0 r.1 valid in
        (f, rw (go, fetch_loop, e) e', valid', stopped)
  ]

  run-kept :
      (remove_stuck_txs : Bool) (n : ℕ) (w : W) (s : MempoolStore)
      → IsValid s
      → (f : Fetched W) × (run io sync_batch_size remove_stuck_txs n w s ≡ returns f)
        × IsValid f.mempool
        × ((f.ended ≡ false) ⊎ (io.stop_requested f.world ≡ true))
  unfolding run
  run-kept remove_stuck_txs n w s v =
      let r = io.access_storage w s in
      let w2 = if remove_stuck_txs then io.remove_stuck_txs r.0 else r.0 in
      fetch_loop-IsValid n (io.reset_mempool w2) r.1 (safe.access w s v)

-- While the other tasks keep the mempool valid and the database has L2 transactions only, with their
-- inputs, the task
-- never panics and keeps the mempool valid, through as many rounds as it makes; and it ends only if
-- the stop signal is there.
pub run-IsValid :
    {W : Type 0} (io : FetcherIo W) (sync_batch_size : ℕ) (remove_stuck_txs : Bool) (n : ℕ) (w : W)
    (s : MempoolStore)
    → IsSafe io
    → IsValid s
    → (f : Fetched W) × (run io sync_batch_size remove_stuck_txs n w s ≡ returns f)
      × IsValid f.mempool
      × ((f.ended ≡ false) ⊎ (io.stop_requested f.world ≡ true))
run-IsValid io sync_batch_size remove_stuck_txs n w s safe v =
    run-kept io sync_batch_size safe remove_stuck_txs n w s v
