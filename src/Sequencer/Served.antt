-- ===== src/Sequencer/Served.antt =====
-- The rounds of a batch end while transactions keep coming (`process_l1_batch` in
-- ola_core/src/sequencer/sequencer.rs).
use ola_os.Base.{
  ℕ, suc, ◌+◌, ◌%◌, ◌<◌, ◌≤◌, ◌≡◌, ◌⊎◌, inl, inr, refl, ap, ◌∙◌, Bool, true, false, some, List, [],
  ◌∷◌, ◌++◌, map, returns, length, length-append, arith,
}
use ola_os.Base.Words.{u32_mod, u64_mod}
use ola_os.Types.Tx.{Transaction}
use ola_os.TxData.{Value}
use ola_os.Dedup.{StorageWritesDeduplicator, apply_and_rollback}
use ola_os.Updates.{
  UpdatesManager, push_miniblock, pending_executed_transactions_len, pending_txs_encoding_size,
}
use ola_os.Updates.Pending.{all_transactions, push_miniblock_lem}
use ola_os.Updates.Runs.{transaction_of}
use ola_os.Seal.{
  Float64, SealManager, SealResolution, no_seal, include_and_seal, exclude_and_seal, unexecutable,
  should_seal, SequencerConfig, default_sealers, bound, tx_encoding_space,
}
use ola_os.Async.{ready, pure, ◌>>=◌}
use ola_os.Sequencer.Io.{SequencerIo, wait_for_new_miniblock_params, close_miniblock, close_if}
use ola_os.Sequencer.Resolve.{
  TxExecutionResult, success, rejected_by_vm, bootloader_out_of_gas_for_tx,
  bootloader_out_of_gas_for_block_tip, seal_resolution, decide,
}
use ola_os.Sequencer.Rounds.{process_one_tx, conclude, process_next_tx}
use ola_os.Sequencer.Calm.{IsSoundTx}
use ola_os.Sequencer.Outcomes.{IsSuccess, include-last}
use ola_os.Sequencer.Liveness.{count, count-transactions, IsServing, FitsIn, Kept, decide-Kept}

-- An open batch without transactions has no size.
abbrev pub IsSized : UpdatesManager → Type 0
IsSized u = (0 < count u) ⊎ (pending_txs_encoding_size u ≡ 0)

count-included :
    (u v : UpdatesManager) (tx : Transaction)
    → map transaction_of (all_transactions v) ≡ map transaction_of (all_transactions u) ++ tx ∷ []
    → count v ≡ count u + 1
count-included u v tx told = omega (
  arith,
  count-transactions (all_transactions v),
  count-transactions (all_transactions u),
  ap length told,
  length-append (map transaction_of (all_transactions u)) (tx ∷ []),
)

module _ (F : Float64) (sealer : SealManager F) (message : List ℕ) (config : SequencerConfig F)
    (standard : sealer.conditional_sealer
      ≡ some (record { config = config; sealers = default_sealers F message }))
    (encode : List Value → List ℕ) (hash_bytecode : List ℕ → ℕ) (hex_encode : List ℕ → List ℕ)
    (sane : bound F tx_encoding_space config.reject_tx_at_geometry_percentage ≤ tx_encoding_space)
    {W B : Type 0} {Open : W → Type 0} {Held : Transaction → W → Type 0} (io : SequencerIo W B)
    (serving : IsServing
      (FitsIn F sealer message config standard encode hash_bytecode)
      Open
      Held
      io) where
  -- The batch is sealed with a transaction, or has one more and is open.
  abbrev pub Advances : UpdatesManager → UpdatesManager × Bool → Type 0
  Advances u (v, sealed) =
      ((sealed ≡ true) × (0 < count v))
      ⊎ ((sealed ≡ false) × (count v ≡ count u + 1) × (count v < config.transaction_slots))

  conclude-Advances :
      (tx : Transaction) (r : SealResolution) (result : TxExecutionResult) (u : UpdatesManager)
      (d : StorageWritesDeduplicator) (w : W)
      → IsSoundTx tx
      → IsSuccess result
      → IsSized u
      → count u + 1 < u64_mod
      → Kept F sealer message config standard u r
      → Held tx w
      → Open w
      → (w' : W) × (a : UpdatesManager × Bool) × ((conclude F sealer encode hash_bytecode hex_encode
                io tx r result
                (record u { storage_writes_deduplicator = d })
              >>= λ v. pure (v, should_seal r))
            w
          ≡ ready w' a)
        × Advances u a
        × Open w'
  unfolding conclude should_seal
  conclude-Advances tx no_seal result u d w sound s sized room k held open_now =
      let (v, ran, told, closed, since) =
        include-last encode hash_bytecode tx result (record u { storage_writes_deduplicator = d })
          sound s in
      let one_more : count v ≡ count u + 1 =
        count-included (record u { storage_writes_deduplicator = d }) v tx told in
      (w, (v, false), rw ran refl, inr (refl, one_more, omega (arith, k.slots_left refl)), open_now)
  conclude-Advances tx include_and_seal result u d w sound s sized room k held open_now =
      let (v, ran, told, closed, since) =
        include-last encode hash_bytecode tx result (record u { storage_writes_deduplicator = d })
          sound s in
      let one_more : count v ≡ count u + 1 =
        count-included (record u { storage_writes_deduplicator = d }) v tx told in
      (w, (v, true), rw ran refl, inl (refl, omega arith), open_now)
  conclude-Advances tx exclude_and_seal result u d w sound s sized room k held open_now =
      let (w', e, open_then) = serving.rollback tx w held in
      (
        w',
        (record u { storage_writes_deduplicator = d }, true),
        rw e refl,
        inl (
          refl,
          elim sized [ inl some_tx ↦ some_tx | inr alone ↦ absurd (k.not_first alone refl) ],
        ),
        open_then,
      )
  conclude-Advances tx (unexecutable reason) result u d w sound s sized room k held open_now =
      absurd (k.executable reason refl)

  seal_resolution-Kept :
      (tx : Transaction) (result : TxExecutionResult) (u : UpdatesManager)
      → FitsIn F sealer message config standard encode hash_bytecode tx
      → IsSuccess result
      → count u + 1 < u64_mod
      → (d : StorageWritesDeduplicator) × (r : SealResolution) × (seal_resolution F sealer encode
            hash_bytecode hex_encode tx result u
          ≡ returns (record u { storage_writes_deduplicator = d }, r))
        × Kept F sealer message config standard u r
  unfolding seal_resolution decide
  seal_resolution-Kept tx (success tx_result tx_metrics tip_metrics tip_result) u fits s room = (
    (apply_and_rollback (tx_result.result.logs.storage_logs ++ tip_result.logs.storage_logs)
        u.storage_writes_deduplicator).0,
    (decide F sealer encode hash_bytecode hex_encode fits.0 tx_result tx_metrics tip_metrics
        tip_result u).1,
    rw fits.1 refl,
    decide-Kept F sealer message config standard encode hash_bytecode hex_encode sane fits.0
        tx_result tx_metrics tip_metrics tip_result u fits.2 room,
  )
  seal_resolution-Kept tx (rejected_by_vm reason) u fits s room = absurd s
  seal_resolution-Kept tx bootloader_out_of_gas_for_tx u fits s room = absurd s
  seal_resolution-Kept tx bootloader_out_of_gas_for_block_tip u fits s room = absurd s

  pub process_next_tx-Advances :
      (tx : Transaction) (u : UpdatesManager) (w : W)
      → IsSoundTx tx
      → FitsIn F sealer message config standard encode hash_bytecode tx
      → IsSized u
      → count u + 1 < u64_mod
      → Held tx w
      → (w' : W) × (a : UpdatesManager × Bool) × (process_next_tx F sealer encode hash_bytecode
            hex_encode io tx u w
          ≡ ready w' a)
        × Advances u a
        × Open w'
  unfolding process_next_tx process_one_tx
  process_next_tx-Advances tx u w sound fits sized room held =
      let (w', result, ran, s, held', open_now) =
        serving.executed tx (pending_executed_transactions_len u % u32_mod) w held in
      let (d, r, resolved, k) = seal_resolution-Kept tx result u fits s room in
      let (w'', a, done, advances, open_then) =
        conclude-Advances tx r result u d w' sound s sized room k held' open_now in
      (w'', a, rw (sound.2, ran, resolved) done, advances, open_then)

  -- Closing a miniblock needs no second look, and changes no count.
  pub close_if-ready :
      (b : Bool) (n : ℕ) (u : UpdatesManager) (w : W)
      → Open w
      → (w' : W) × (v : UpdatesManager) × (close_if io b (suc n) u w ≡ ready w' v)
        × (count v ≡ count u)
        × (IsSized u → IsSized v)
        × Open w'
  unfolding close_if close_miniblock wait_for_new_miniblock_params
  close_if-ready true n u w open_now =
      let (w', e, open_then) = serving.seal_miniblock u w open_now in
      let (w'', timestamp, found, open_last) =
        serving.timestamps u.miniblock.timestamp w' open_then in
      let (fresh, txs, logs, dedup, len, metrics, size) = push_miniblock_lem timestamp u in
      (
        w'',
        push_miniblock timestamp u,
        rw (e, found) refl,
        ap length txs,
        λ sized. elim sized [
          | inl some_tx ↦ inl (omega (arith, ap length txs))
          | inr alone ↦ inr (size ∙ alone)
        ],
        open_last,
      )
  close_if-ready false n u w open_now = (w, u, refl, refl, λ sized. sized, open_now)
