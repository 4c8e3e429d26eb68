-- ===== src/MempoolIo/Poll.antt =====
-- Polling the mempool (ola_core/src/sequencer/io/mempool.rs, io/common.rs).
use ola_os.Base.{
  ℕ, zero, suc, ◌+◌, ◌-◌, ◌*◌, ◌/◌, ◌%◌, ◌<◌, ◌≤◌, ◌≡◌, ◌⊎◌, refl, ap, ◌∙◌, max, Option, none, some,
  true, last?, returns, panics, lt→ltb, arith, Option-cases, inl, inr,
}
use ola_os.Base.Words.{u64_mod}
use ola_os.Base.Map.{keys}
use ola_os.Base.Map.Last.{contains-last}
use ola_os.Mempool.Account.{score_ord}
use ola_os.Types.Tx.{Transaction}
use ola_os.Mempool.Store.{MempoolStore, next_transaction, has_next}
use ola_os.Mempool.Invariant.{IsValid}
use ola_os.Mempool.Next.{next_transaction-IsValid, next_transaction-Serves, Serves}
use ola_os.MempoolIo.{poll_iters, poll, wait_for_next_tx}
use native.Mathlib.Nat.{mod-lt, div-add-mod'}

least_looks :
    (d m q r : ℕ)
    → q * suc d + r ≡ m + d
    → r ≤ d
    → (m ≤ max q 1 * suc d) × ((max q 1 ≡ 1) ⊎ ((max q 1 - 1) * suc d < m))
least_looks d m zero r e h = (ground arith, inl (omega arith))
least_looks d m (suc zero) r e h = (ground arith, inl (omega arith))
least_looks d m (suc (suc k)) r e h =
    let one_less : max (suc (suc k)) 1 - 1 ≡ suc k = omega arith in
    (ground arith, inr (rw one_less (ground arith)))

-- The number of looks is the least positive one whose sleeps last for `max_wait`; a delay of zero
-- panics.
pub poll_iters_lem :
    (delay max_wait : ℕ)
    → max_wait + delay < u64_mod
    → ((delay ≡ 0) × (poll_iters delay max_wait ≡ panics))
      ⊎ ((n : ℕ) × (poll_iters delay max_wait ≡ returns n)
          × (max_wait ≤ n * delay)
          × ((n ≡ 1) ⊎ ((n - 1) * delay < max_wait))
          × (1 ≤ n))
unfolding poll_iters
poll_iters_lem zero max_wait small = inl (refl, refl)
poll_iters_lem (suc d) max_wait small =
    let unwrapped : (max_wait + suc d + (u64_mod - 1)) % u64_mod ≡ max_wait + d = omega arith in
    let rounded =
      least_looks d max_wait ((max_wait + d) / suc d) ((max_wait + d) % suc d)
        (div-add-mod' (max_wait + d) (suc d))
        (omega (arith, mod-lt (max_wait + d) {m = suc d} (omega arith))) in
    inr (
      max ((max_wait + d) / suc d) 1,
      rw (unwrapped, lt→ltb 0 (suc d) (omega arith)) refl,
      rounded.0,
      rounded.1,
      omega arith,
    )

poll-IsValid :
    (n : ℕ) (meanwhile : ℕ → MempoolStore → MempoolStore) (s : MempoolStore)
    → ((i : ℕ) (t : MempoolStore) → IsValid t → IsValid (meanwhile i t))
    → IsValid s
    → (s' : MempoolStore) × (r : Option Transaction) × (poll n meanwhile s ≡ returns (s', r))
      × IsValid s'
unfolding poll
poll-IsValid zero meanwhile s keeps v = (s, none, refl, v)
poll-IsValid (suc n) meanwhile s keeps v =
    let (t, r, e, valid, stash) = next_transaction-IsValid s v in
    elim (Option-cases r) [
      | inl nothing ↦
          let (s', r', rest, valid') =
            poll-IsValid n meanwhile (meanwhile n t) keeps (keeps n t valid) in
          (s', r', rw (e, nothing) rest, valid')
      | inr (tx, found) ↦ (t, some tx, rw (e, found) refl, valid)
    ]

-- While the other tasks keep the mempool valid, waiting for a transaction does not panic, and the
-- mempool is valid afterwards.
pub wait_for_next_tx-IsValid :
    (delay max_wait : ℕ) (meanwhile : ℕ → MempoolStore → MempoolStore) (s : MempoolStore)
    → 0 < delay
    → max_wait + delay < u64_mod
    → ((i : ℕ) (t : MempoolStore) → IsValid t → IsValid (meanwhile i t))
    → IsValid s
    → (s' : MempoolStore) × (r : Option Transaction) × (wait_for_next_tx delay max_wait meanwhile s
        ≡ returns (s', r))
      × IsValid s'
unfolding wait_for_next_tx
wait_for_next_tx-IsValid delay max_wait meanwhile s positive small keeps v =
    elim (poll_iters_lem delay max_wait small) [
      | inl (zero_delay, bad) ↦ absurd (omega arith)
      | inr (n, looks, enough, least, once) ↦
          let (s', r, ran, valid) = poll-IsValid n meanwhile s keeps v in
          (s', r, rw looks ran, valid)
    ]

first_look :
    (s s' : MempoolStore) (r : Option Transaction)
    → IsValid s
    → has_next s ≡ true
    → next_transaction s ≡ returns (s', r)
    → (tx : Transaction) × (r ≡ some tx) × Serves s (some tx)
unfolding has_next
first_look s s' none v ready e = elim (Option-cases (last? (keys s.l2_priority_queue))) [
  | inl empty ↦ absurd (ground (arith, empty, ready))
  | inr (p, last) ↦ absurd (
      ground
        (arith, next_transaction-Serves s none v e p, contains-last p s.l2_priority_queue last))
]
first_look s s' (some tx) v ready e = (tx, refl, next_transaction-Serves s (some tx) v e)

poll_found :
    (n : ℕ) (meanwhile : ℕ → MempoolStore → MempoolStore) (s t : MempoolStore) (tx : Transaction)
    → next_transaction s ≡ returns (t, some tx)
    → poll (suc n) meanwhile s ≡ returns (t, some tx)
unfolding poll
poll_found n meanwhile s t tx e = rw e refl

poll-Serves :
    (n : ℕ) (meanwhile : ℕ → MempoolStore → MempoolStore) (s : MempoolStore)
    → 1 ≤ n
    → IsValid s
    → has_next s ≡ true
    → (s' : MempoolStore) × (tx : Transaction) × (poll n meanwhile s ≡ returns (s', some tx))
      × IsValid s'
      × Serves s (some tx)
unfolding poll
poll-Serves zero meanwhile s once v ready = absurd (omega arith)
poll-Serves (suc n) meanwhile s once v ready =
    let (t, r, e, valid, stash) = next_transaction-IsValid s v in
    let (tx, found, serves) = first_look s t r v ready e in
    (t, tx, poll_found n meanwhile s t tx (e ∙ ap (λ o. returns (t, o)) found), valid, serves)

-- A transaction that the mempool can serve is returned at once: the oldest head, without a sleep.
pub wait_for_next_tx-Serves :
    (delay max_wait : ℕ) (meanwhile : ℕ → MempoolStore → MempoolStore) (s : MempoolStore)
    → 0 < delay
    → max_wait + delay < u64_mod
    → IsValid s
    → has_next s ≡ true
    → (s' : MempoolStore) × (tx : Transaction) × (wait_for_next_tx delay max_wait meanwhile s
        ≡ returns (s', some tx))
      × IsValid s'
      × Serves s (some tx)
unfolding wait_for_next_tx has_next
wait_for_next_tx-Serves delay max_wait meanwhile s positive small v ready =
    elim (poll_iters_lem delay max_wait small) [
      | inl (zero_delay, bad) ↦ absurd (omega arith)
      | inr (n, looks, enough, least, once) ↦
          let (s', tx, ran, valid, serves) = poll-Serves n meanwhile s once v ready in
          (s', tx, rw looks ran, valid, serves)
    ]
