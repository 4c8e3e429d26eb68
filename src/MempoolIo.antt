-- ===== src/MempoolIo.antt =====
-- The sequencer's waiting on the mempool and on the clock (ola_core/src/sequencer/io/mempool.rs,
-- io/common.rs). Clock readings are milliseconds, given in the order in which they are taken.
pub mod Clock
pub mod Poll
mod Tests
use ola_os.Base.{
  ℕ, zero, suc, ◌+◌, ◌-◌, ◌*◌, ◌/◌, ◌%◌, max, Option, none, some, List, [], ◌∷◌, Outcome, returns,
  panics, assert, ◌>>=◌, ◌>>◌, ltb, ◌==◌, if◌then◌else◌,
}
use ola_os.Base.Words.{u64_mod}
use ola_os.Types.Tx.{Transaction}
use ola_os.Mempool.Store.{MempoolStore, next_transaction}

-- The seconds of a reading.
abbrev pub seconds : ℕ → ℕ
seconds millis = millis / 1000 % u64_mod

-- The milliseconds to sleep until the second after a timestamp.
unfoldable pub wait : ℕ → ℕ → ℕ
wait timestamp millis =
    let wait_seconds = timestamp - seconds millis in
    let wait_millis = 1001 - millis % 1000 in (wait_millis + wait_seconds * 1000) % u64_mod

-- The loop, one reading after each sleep: nothing is returned while the readings last no longer.
unfoldable pub sleep_loop : ℕ → List ℕ → Option ℕ
sleep_loop timestamp [] = none
sleep_loop timestamp (millis ∷ readings) =
    let rest = sleep_loop timestamp readings in
    if ltb timestamp (seconds millis) then some (seconds millis) else rest

unfoldable pub sleep_past : ℕ → List ℕ → Option ℕ
unfolding sleep_loop
sleep_past timestamp [] = none
sleep_past timestamp (millis ∷ readings) =
    if ltb timestamp (seconds millis) then some (seconds millis) else sleep_loop timestamp readings

-- How often to look within `max_wait`, both in milliseconds.
unfoldable pub poll_iters : ℕ → ℕ → Outcome ℕ
poll_iters delay_interval max_wait = do
  assert (ltb 0 delay_interval)
  returns (max ((max_wait + delay_interval + (u64_mod - 1)) % u64_mod / delay_interval) 1)

-- The loop of `wait_for_next_tx`: other tasks change the mempool during its sleeps.
unfoldable pub poll :
    ℕ
    → (ℕ → MempoolStore → MempoolStore)
    → MempoolStore
    → Outcome (MempoolStore × Option Transaction)
poll zero meanwhile s = returns (s, none)
poll (suc n) meanwhile s = do
  (t, res) ← next_transaction s
  elim res [ some tx ↦ returns (t, some tx) | none ↦ poll n meanwhile (meanwhile n t) ]

unfoldable pub wait_for_next_tx :
    ℕ
    → ℕ
    → (ℕ → MempoolStore → MempoolStore)
    → MempoolStore
    → Outcome (MempoolStore × Option Transaction)
unfolding poll_iters poll
wait_for_next_tx delay_interval max_wait meanwhile s = do
  n ← poll_iters delay_interval max_wait
  poll n meanwhile s
