-- ===== src/Sequencer/Accounts.antt =====
-- The transactions of a batch are accounted for (`process_l1_batch` in
-- ola_core/src/sequencer/sequencer.rs).
use ola_os.Base.{
  ℕ, ◌≡◌, refl, sym, ap, subst, ◌∙◌, some, List, [], ◌∷◌, ◌++◌, ◌%◌, append_assoc, append-nil, map,
  returns,
}
use ola_os.Base.Words.{u32_mod}
use ola_os.Types.Tx.{Transaction}
use ola_os.Types.Tx
use ola_os.TxData.{Value}
use ola_os.Dedup.{StorageWritesDeduplicator}
use ola_os.Updates.{
  UpdatesManager, push_miniblock, extend_from_sealed_miniblock, new_miniblock,
  pending_executed_transactions_len,
}
use ola_os.Updates.Pending.{all_transactions}
use ola_os.Updates.Runs.{transaction_of}
use ola_os.Seal.{
  Float64, SealManager, SealResolution, no_seal, include_and_seal, exclude_and_seal, unexecutable,
}
use ola_os.Async.{Holds, Holds-follow}
use ola_os.Sequencer.Io.{SequencerIo}
use ola_os.Sequencer.Resolve.{TxExecutionResult, include, seal_resolution}
use ola_os.Sequencer.Rounds.{process_one_tx, conclude, process_next_tx}
use ola_os.Sequencer.Calm.{Holds-noting, Holds-lift, Holds-lifted}
use ola_os.Sequencer.Recorded.{
  Trace, recorded, no_trace, note_served, note_given_back, note_sealed, Interleaves, neither, left,
  right,
}
use ola_os.Sequencer.Outcomes.{seal_resolution-same, include-told}

-- What a record says of the updates since a start: each transaction that was handed out is either
-- included or given back, and the miniblocks that were sealed are the closed ones.
pub record Book (start : UpdatesManager) (t : Trace) (u : UpdatesManager) : Type 0 where
  pub included : List Transaction
  pub told :
      map transaction_of (all_transactions u)
      ≡ map transaction_of (all_transactions start) ++ included
  pub accounted : Interleaves t.served included t.given_back
  pub closed : u.l1_batch.executed_transactions ≡ start.l1_batch.executed_transactions ++ t.sealed

pub Book-start : (u : UpdatesManager) → Book u no_trace u
Book-start u = record {
  included = [];
  told = sym (append-nil (map transaction_of (all_transactions u)));
  accounted = neither;
  closed = sym (append-nil u.l1_batch.executed_transactions);
}

module _ (start : UpdatesManager) where
  pub Book-push :
      (t : Trace) (u : UpdatesManager) (timestamp : ℕ)
      → Book start t u
      → Book start (note_sealed u t) (push_miniblock timestamp u)
  unfolding push_miniblock extend_from_sealed_miniblock new_miniblock
  Book-push t u timestamp b = record {
    included = b.included;
    told = ap (map transaction_of) (append-nil (all_transactions u)) ∙ b.told;
    accounted = b.accounted;
    closed =
        ap (λ ts. ts ++ u.miniblock.executed_transactions) b.closed
        ∙ append_assoc start.l1_batch.executed_transactions t.sealed
            u.miniblock.executed_transactions;
  }

  -- The dry run of the deduplicator leaves no trace.
  Book-dedup :
      (t : Trace) (u : UpdatesManager) (d : StorageWritesDeduplicator)
      → Book start t u
      → Book start t (record u { storage_writes_deduplicator = d })
  Book-dedup t u d b = record {
    included = b.included;
    told = b.told;
    accounted = b.accounted;
    closed = b.closed;
  }

  Book-given_back :
      (t : Trace) (u : UpdatesManager) (tx : Transaction)
      → Book start t u
      → Book start (note_given_back tx (note_served (some tx) t)) u
  Book-given_back t u tx b = record {
    included = b.included;
    told = b.told;
    accounted = right tx b.accounted;
    closed = b.closed;
  }

  module _ (encode : List Value → List ℕ) (hash_bytecode : List ℕ → ℕ) where
    pub include-Book :
        (t : Trace) (u v : UpdatesManager) (tx : Transaction) (result : TxExecutionResult)
        → Book start t u
        → include encode hash_bytecode tx result u ≡ returns v
        → Book start (note_served (some tx) t) v
    include-Book t u v tx result b ran =
        let (told, closed) = include-told encode hash_bytecode tx result u v ran in
        record {
          included = b.included ++ tx ∷ [];
          told =
              told
              ∙ ap (λ ts. ts ++ tx ∷ []) b.told
              ∙ append_assoc (map transaction_of (all_transactions start)) b.included (tx ∷ []);
          accounted = left tx b.accounted;
          closed = ap (λ l. l.executed_transactions) closed ∙ b.closed;
        }

    module _ (F : Float64) (sealer : SealManager F) (hex_encode : List ℕ → List ℕ) {W B : Type 0}
        (io : SequencerIo W B) where
      abbrev pub Booked : W × Trace → UpdatesManager → Type 0
      Booked (w, t) u = Book start t u

      conclude-Book :
          (t : Trace) (u : UpdatesManager) (tx : Transaction) (r : SealResolution)
          (result : TxExecutionResult) (w : W)
          → Book start t u
          → Holds Booked (
              conclude F sealer encode hash_bytecode hex_encode
                (recorded io)
                tx
                r
                result
                u
                (w, note_served (some tx) t))
      unfolding conclude
      conclude-Book t u tx no_seal result w b =
          Holds-lifted Booked (include encode hash_bytecode tx result u) _
            (λ v ran. include-Book t u v tx result b ran)
      conclude-Book t u tx include_and_seal result w b =
          Holds-lifted Booked (include encode hash_bytecode tx result u) _
            (λ v ran. include-Book t u v tx result b ran)
      conclude-Book t u tx exclude_and_seal result w b =
          Holds-noting Booked (λ _. note_given_back tx) (io.rollback tx) w (note_served (some tx) t)
            _ (λ w' _. Book-given_back t u tx b)
      conclude-Book t u tx (unexecutable reason) result w b =
          Holds-noting Booked (λ _. note_given_back tx) (io.reject tx reason) w
            (note_served (some tx) t) _ (λ w' _. Book-given_back t u tx b)

      pub process_one_tx-Book :
          (t : Trace) (noted : Trace) (u : UpdatesManager) (tx : Transaction) (w : W)
          → Book start t u
          → Holds
              (λ s a. Book start t a.0 × (s.1 ≡ noted))
              (process_one_tx F sealer encode hash_bytecode hex_encode
                (recorded io)
                u
                tx
                (w, noted))
      unfolding process_one_tx
      process_one_tx-Book t noted u tx w b =
          Holds-noting _ (λ _ t'. t')
            (io.execute_tx tx (pending_executed_transactions_len u % u32_mod)) w noted _
            (λ w' result.
              Holds-lift _ (seal_resolution F sealer encode hash_bytecode hex_encode tx result u) _
                _
                (λ a resolved.
                  let (d, same) =
                    seal_resolution-same F sealer encode hash_bytecode hex_encode tx result u a.0
                      a.1 resolved in
                  (subst (Book start t) (sym same) (Book-dedup t u d b), refl)))

      pub process_next_tx-Book :
          (t : Trace) (u : UpdatesManager) (tx : Transaction) (w : W)
          → Book start t u
          → Holds
              (λ s r. Booked s r.0)
              (process_next_tx F sealer encode hash_bytecode hex_encode
                (recorded io)
                tx
                u
                (w, note_served (some tx) t))
      unfolding process_next_tx
      process_next_tx-Book t u tx w b =
          let noted = note_served (some tx) t in
          Holds-lift _ (Tx.hash tx) (w, noted) _
            (λ h hashed.
              Holds-follow (λ s a. Book start t a.0 × (s.1 ≡ noted)) (λ s r. Booked s r.0)
                (process_one_tx F sealer encode hash_bytecode hex_encode (recorded io) u tx
                  (w, noted))
                _ (process_one_tx-Book t noted u tx w b)
                (λ s a h.
                  Holds-follow Booked (λ s r. Booked s r.0)
                    (conclude F sealer encode hash_bytecode hex_encode (recorded io) tx a.1 a.2 a.0
                      s)
                    _
                    (subst
                      (λ t'. Holds Booked (
                        conclude F sealer encode hash_bytecode hex_encode (recorded io) tx a.1 a.2
                          a.0 (s.0, t')))
                      (sym h.1) (conclude-Book t a.0 tx a.1 a.2 s.0 h.0))
                    (λ s v b'. b')))
