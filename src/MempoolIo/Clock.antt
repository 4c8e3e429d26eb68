-- ===== src/MempoolIo/Clock.antt =====
-- Waiting for a timestamp to pass (ola_core/src/sequencer/io/mempool.rs).
use ola_os.Base.{
  ℕ, ◌+◌, ◌/◌, ◌^◌, ◌<◌, ◌≤◌, ◌≡◌, ◌⊎◌, some, List, ◌∷◌, ltb, arith, Bool-cases, inl, inr,
}
use ola_os.MempoolIo.{seconds, wait, sleep_loop, sleep_past}

-- If each sleep lasts at least as long as it was asked to, `sleep_past` returns after the first
-- one at the latest, with the second of a reading and later than the timestamp.
pub sleep_past_lem :
    (timestamp now later : ℕ) (readings : List ℕ)
    → timestamp < 2 ^ 50
    → later < 2 ^ 63
    → now + wait timestamp now ≤ later
    → (current : ℕ) × (sleep_past timestamp (now ∷ later ∷ readings) ≡ some current)
      × ((current ≡ now / 1000) ⊎ (current ≡ later / 1000))
      × (timestamp < current)
unfolding sleep_past sleep_loop wait
sleep_past_lem timestamp now later readings small fits slept =
    elim (Bool-cases (ltb timestamp (seconds now))) [
      | inl past ↦ (seconds now, ground arith, inl (ground arith), ground arith)
      | inr not_yet ↦
          let next : timestamp < seconds later = ground arith in
          (seconds later, ground arith, inr (ground arith), next)
    ]
