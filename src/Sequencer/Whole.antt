-- ===== src/Sequencer/Whole.antt =====
-- A whole batch, from new updates to its sealing (`run_inner` in
-- ola_core/src/sequencer/sequencer.rs).
use ola_os.Base.{
  ℕ, ◌≡◌, refl, sym, ap, subst, ◌∙◌, false, Option, List, [], ◌∷◌, ◌++◌, ◌%◌, is_empty, not,
  append-nil, map,
}
use ola_os.Base.Words.{u32_mod}
use ola_os.Types.Tx.{ProtocolUpgradeTx}
use ola_os.Types.Execution.{TransactionExecutionResult}
use ola_os.TxData.{Value}
use ola_os.Updates.{UpdatesManager, new_miniblock, new, pending_executed_transactions_len}
use ola_os.Updates.Pending.{all_transactions}
use ola_os.Updates.Runs.{transaction_of}
use ola_os.Seal.{Float64, SealManager}
use ola_os.Async.{Async, Holds, Holds-follow, Holds-weaken, ◌>>=◌}
use ola_os.Sequencer.Io.{SequencerIo, L1BatchParams}
use ola_os.Sequencer.Rounds.{process_l1_batch}
use ola_os.Sequencer.Run.{finish_current_batch, close_last_miniblock, new_updates}
use ola_os.Sequencer.Calm.{Holds-noting}
use ola_os.Sequencer.Recorded.{Trace, recorded, no_trace, note_served, Interleaves}
use ola_os.Sequencer.Accounts.{Book, Book-start}
use ola_os.Sequencer.Batches.{close_if-Closed}
use ola_os.Sequencer.Upgrade.{opening, process_l1_batch-Book}

is_empty-nil : (ts : List TransactionExecutionResult) → not (is_empty ts) ≡ false → ts ≡ []
is_empty-nil [] e = refl
is_empty-nil (t ∷ ts) e = cc

module _ (start : UpdatesManager) (encode : List Value → List ℕ) (hash_bytecode : List ℕ → ℕ)
    (F : Float64) (sealer : SealManager F) (hex_encode : List ℕ → List ℕ) {W B : Type 0}
    (io : SequencerIo W B) where
  -- The end of a batch: its last miniblock is sealed if it has a transaction.
  close_last_miniblock-Book :
      (n : ℕ) (u : UpdatesManager) (w : W) (t : Trace)
      → Book start t u
      → Holds
          (λ s v. Book start s.1 v × (v.miniblock.executed_transactions ≡ []))
          (close_last_miniblock encode hash_bytecode (recorded io) n u (w, t))
  unfolding close_last_miniblock
  close_last_miniblock-Book n u w t b =
      close_if-Closed start encode hash_bytecode F sealer hex_encode io
        (not (is_empty u.miniblock.executed_transactions)) n u w t b
        (λ e. is_empty-nil u.miniblock.executed_transactions e)

  finish_current_batch-Book :
      (n : ℕ) (params : L1BatchParams) (u : UpdatesManager) (w : W) (t : Trace)
      → Book start t u
      → Holds
          (λ s v. Book start s.1 v × (v.miniblock.executed_transactions ≡ []))
          (finish_current_batch encode hash_bytecode (recorded io) n params u (w, t))
  unfolding finish_current_batch
  finish_current_batch-Book n params u w t b =
      Holds-follow (λ s v. Book start s.1 v × (v.miniblock.executed_transactions ≡ []))
        (λ s v. Book start s.1 v × (v.miniblock.executed_transactions ≡ []))
        (close_last_miniblock encode hash_bytecode (recorded io) n u (w, t)) _
        (close_last_miniblock-Book n u w t b)
        (λ s v b'.
          Holds-noting _ (λ _ t'. t')
            (io.finish_batch (pending_executed_transactions_len v % u32_mod)) s.0 s.1 _
            (λ w1 result.
              Holds-noting _ (λ _ t'. t') (io.put_witness result) w1 s.1 _
                (λ w2 put.
                  Holds-noting _ (λ _ t'. t') (io.seal_l1_batch result v params) w2 s.1 _
                    (λ w3 sealed. b'))))

-- A record of a batch from the start that has no open transactions.
Book-whole :
    (params : L1BatchParams) (t : Trace) (v : UpdatesManager)
    → Book (new_updates params) t v
    → v.miniblock.executed_transactions ≡ []
    → Interleaves t.served (map transaction_of t.sealed) t.given_back
      × (all_transactions v ≡ t.sealed)
unfolding new_updates new new_miniblock
Book-whole params t v b closed =
    let whole : all_transactions v ≡ t.sealed =
      ap (λ ts. v.l1_batch.executed_transactions ++ ts) closed
      ∙ append-nil v.l1_batch.executed_transactions
      ∙ b.closed in
    (
      subst (λ ts. Interleaves t.served ts t.given_back)
          (sym b.told ∙ ap (map transaction_of) whole) b.accounted,
      whole,
    )

-- The whole of a batch from new updates: its rounds, with the upgrade transaction that opens it, if
-- any, and its end.
abbrev pub whole_batch :
    {W B : Type 0}
    → (List Value → List ℕ)
    → (List ℕ → ℕ)
    → (List ℕ → List ℕ)
    → (F : Float64) → SealManager F
    → SequencerIo W B
    → ℕ
    → Option ProtocolUpgradeTx
    → L1BatchParams
    → Async W UpdatesManager
whole_batch encode hash_bytecode hex_encode F sealer io n upgrade params =
    process_l1_batch F sealer encode hash_bytecode hex_encode io n upgrade (new_updates params)
    >>= finish_current_batch encode hash_bytecode io n params

-- Whatever the interfaces do and whatever the sealer decides, when a batch has gone from new updates
-- to its sealing, the upgrade transaction that opens it, if any, and the transactions that were
-- handed out are, in order and each once, those of the miniblocks that were sealed and those that
-- were put back or rejected; and the sealed miniblocks are the whole batch.
pub whole_batch-Accounts :
    {W B : Type 0} (encode : List Value → List ℕ) (hash_bytecode : List ℕ → ℕ)
    (hex_encode : List ℕ → List ℕ) (F : Float64) (sealer : SealManager F) (io : SequencerIo W B)
    (n : ℕ) (upgrade : Option ProtocolUpgradeTx) (params : L1BatchParams) (w : W)
    → Holds
        (λ s v.
          Interleaves s.1.served (map transaction_of s.1.sealed) s.1.given_back
          × (all_transactions v ≡ s.1.sealed))
        (whole_batch encode hash_bytecode hex_encode F sealer
          (recorded io)
          n
          upgrade
          params
          (w, note_served (opening upgrade) no_trace))
whole_batch-Accounts encode hash_bytecode hex_encode F sealer io n upgrade params w =
    let start = new_updates params in
    Holds-follow (λ s v. Book start s.1 v) _
      (process_l1_batch F sealer encode hash_bytecode hex_encode (recorded io) n upgrade start
        (w, note_served (opening upgrade) no_trace))
      (finish_current_batch encode hash_bytecode (recorded io) n params)
      (process_l1_batch-Book start encode hash_bytecode F sealer hex_encode io n no_trace start
        upgrade w (Book-start start))
      (λ s u b.
        Holds-weaken (λ s' v. Book start s'.1 v × (v.miniblock.executed_transactions ≡ [])) _
          (finish_current_batch encode hash_bytecode (recorded io) n params u s)
          (finish_current_batch-Book start encode hash_bytecode F sealer hex_encode io n params u
            s.0 s.1 b)
          (λ s' v b'. Book-whole params s'.1 v b'.0 b'.1))
