-- ===== src/Sequencer/Batches.antt =====
-- The rounds of a batch and its end keep account of the transactions (`process_l1_batch` and
-- `run_inner` in ola_core/src/sequencer/sequencer.rs).
use ola_os.Base.{
  ℕ, zero, suc, ◌≡◌, refl, sym, subst, Bool, true, false, List, [], inl, inr, Option-cases,
}
use ola_os.TxData.{Value}
use ola_os.Updates.{UpdatesManager, push_miniblock, new_miniblock}
use ola_os.Seal.{Float64, SealManager, should_seal_l1_batch_unconditionally, should_seal_miniblock}
use ola_os.Async.{Async, Holds, Holds-follow, Holds-weaken, pure}
use ola_os.Sequencer.Io.{
  SequencerIo, cancel_if, check_if_cancelled, wait_for_new_miniblock_params, close_miniblock,
  close_if,
}
use ola_os.Sequencer.Rounds.{process_rounds, unless_sealed, take_next, go_on}
use ola_os.Sequencer.Calm.{Holds-noting, Holds-cancel_if}
use ola_os.Sequencer.Recorded.{Trace, recorded, note_sealed, note_served}
use ola_os.Sequencer.Accounts.{Book, Book-push, process_next_tx-Book}

module _ (start : UpdatesManager) (encode : List Value → List ℕ) (hash_bytecode : List ℕ → ℕ)
    (F : Float64) (sealer : SealManager F) (hex_encode : List ℕ → List ℕ) {W B : Type 0}
    (io : SequencerIo W B) where
  module _ (Q : Trace → Type 0) where
    check-Holds :
        (w : W) (t : Trace) → Q t → Holds (λ s _. Q s.1) (check_if_cancelled (recorded io) (w, t))
    unfolding check_if_cancelled
    check-Holds w t q =
        Holds-noting (λ s _. Q s.1) (λ _ t'. t') io.stop_requested w t cancel_if
          (λ w' b. Holds-cancel_if (λ s. Q s.1) b (w', t) q)

    pub wait-Holds :
        (n timestamp : ℕ) (w : W) (t : Trace)
        → Q t
        → Holds (λ s _. Q s.1) (wait_for_new_miniblock_params (recorded io) n timestamp (w, t))
    unfolding wait_for_new_miniblock_params
    wait-Holds zero timestamp w t q = tt
    wait-Holds (suc n) timestamp w t q =
        Holds-noting (λ s _. Q s.1) (λ _ t'. t') (io.wait_for_new_miniblock_params timestamp) w t _
          (λ w' found. elim (Option-cases found) [
            | inl nothing ↦ rw nothing (
                Holds-follow (λ s _. Q s.1) (λ s _. Q s.1)
                  (check_if_cancelled (recorded io) (w', t))
                  (λ _. wait_for_new_miniblock_params (recorded io) n timestamp)
                  (check-Holds w' t q) (λ s _ q'. wait-Holds n timestamp s.0 s.1 q'))
            | inr (params, something) ↦ rw something q
          ])

  -- A miniblock is sealed, and the next one is open.
  pub close_miniblock-Book :
      (n : ℕ) (u : UpdatesManager) (w : W) (t : Trace)
      → Book start t u
      → Holds
          (λ s v. Book start s.1 v × (v.miniblock.executed_transactions ≡ []))
          (close_miniblock (recorded io) n u (w, t))
  unfolding close_miniblock
  close_miniblock-Book n u w t b =
      let noted = note_sealed u t in
      Holds-noting _ (λ _. note_sealed u) (io.seal_miniblock u) w t _
        (λ w' done.
          Holds-follow (λ s _. s.1 ≡ noted)
            (λ s v. Book start s.1 v × (v.miniblock.executed_transactions ≡ []))
            (wait_for_new_miniblock_params (recorded io) n u.miniblock.timestamp (w', noted))
            (λ ts. pure (push_miniblock ts u))
            (wait-Holds (λ t'. t' ≡ noted) n u.miniblock.timestamp w' noted refl)
            (λ s ts same. (
              subst (λ t'. Book start t' (push_miniblock ts u)) (sym same)
                  (Book-push start t u ts b),
              unfold push_miniblock new_miniblock in refl,
            )))

  pub close_if-Closed :
      (b : Bool) (n : ℕ) (u : UpdatesManager) (w : W) (t : Trace)
      → Book start t u
      → (b ≡ false → u.miniblock.executed_transactions ≡ [])
      → Holds
          (λ s v. Book start s.1 v × (v.miniblock.executed_transactions ≡ []))
          (close_if (recorded io) b n u (w, t))
  unfolding close_if
  close_if-Closed true n u w t b h = close_miniblock-Book n u w t b
  close_if-Closed false n u w t b h = (b, h refl)

  close_if-Book :
      (b : Bool) (n : ℕ) (u : UpdatesManager) (w : W) (t : Trace)
      → Book start t u
      → Holds (λ s v. Book start s.1 v) (close_if (recorded io) b n u (w, t))
  unfolding close_if
  close_if-Book true n u w t b =
      Holds-weaken (λ s v. Book start s.1 v × (v.miniblock.executed_transactions ≡ []))
        (λ s v. Book start s.1 v) (close_miniblock (recorded io) n u (w, t))
        (close_miniblock-Book n u w t b) (λ s v b'. b'.0)
  close_if-Book false n u w t b = b

  abbrev pub Continues : (UpdatesManager → Async (W × Trace) UpdatesManager) → Type 0
  Continues rest =
      (u : UpdatesManager) (w : W) (t : Trace)
      → Book start t u
      → Holds (λ s v. Book start s.1 v) (rest u (w, t))

  unless_sealed-Book :
      (rest : UpdatesManager → Async (W × Trace) UpdatesManager)
      → Continues rest
      → (r : UpdatesManager × Bool) (w : W) (t : Trace) → Book start t r.0
      → Holds
          (λ s v. Book start s.1 v)
          (unless_sealed F sealer encode hash_bytecode hex_encode (recorded io) rest r (w, t))
  unless_sealed-Book rest continues (v, true) w t b = b
  unless_sealed-Book rest continues (v, false) w t b = continues v w t b

  take_next-Book :
      (rest : UpdatesManager → Async (W × Trace) UpdatesManager)
      → Continues rest
      → Continues (take_next F sealer encode hash_bytecode hex_encode (recorded io) rest)
  unfolding take_next
  take_next-Book rest continues u w t b =
      Holds-noting (λ s v. Book start s.1 v) note_served io.wait_for_next_tx w t _
        (λ w' next. elim (Option-cases next) [
          | inl nothing ↦ rw nothing (continues u w' t b)
          | inr (tx, something) ↦ rw something (
              Holds-follow (λ s r. Book start s.1 r.0) (λ s v. Book start s.1 v) _ _
                (process_next_tx-Book start encode hash_bytecode F sealer hex_encode io t u tx w' b)
                (λ s r b'. unless_sealed-Book rest continues r s.0 s.1 b'))
        ])

  go_on-Book :
      (sealed : Bool) (n : ℕ) (rest : UpdatesManager → Async (W × Trace) UpdatesManager)
      → Continues rest
      → Continues (go_on F sealer encode hash_bytecode hex_encode (recorded io) sealed n rest)
  unfolding go_on
  go_on-Book true n rest continues u w t b = b
  go_on-Book false n rest continues u w t b =
      Holds-noting _ (λ _ t'. t') io.now w t _
        (λ w' later.
          Holds-follow (λ s v. Book start s.1 v) (λ s v. Book start s.1 v) _ _
            (close_if-Book (should_seal_miniblock F sealer later u) n u w' t b)
            (λ s v b'. take_next-Book rest continues v s.0 s.1 b'))

  pub process_rounds-Book :
      (n : ℕ) → Continues (process_rounds F sealer encode hash_bytecode hex_encode (recorded io) n)
  unfolding process_rounds
  process_rounds-Book zero u w t b = tt
  process_rounds-Book (suc n) u w t b =
      Holds-follow (λ s _. Book start s.1 u) (λ s v. Book start s.1 v)
        (check_if_cancelled (recorded io) (w, t)) _ (check-Holds (λ t'. Book start t' u) w t b)
        (λ s _ b'.
          Holds-noting _ (λ _ t'. t') io.now s.0 s.1 _
            (λ w' now.
              go_on-Book (should_seal_l1_batch_unconditionally F sealer now u) (suc n) _
                (process_rounds-Book n) u w' s.1 b'))
