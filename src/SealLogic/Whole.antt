-- ===== src/SealLogic/Whole.antt =====
-- Sealing a batch as a whole (ola_core/src/sequencer/io/seal_logic.rs).
use ola_os.Base.{
  ℕ, ◌+◌, ◌-◌, ◌%◌, ◌≡◌, refl, sym, ap, ◌∙◌, Bool, true, none, List, [], ◌∷◌, ◌++◌, All, All-map,
  map, returns, leb, ltb, length, is_empty, ◌==◌, arith,
}
use ola_os.Base.Words.{u32_mod}
use ola_os.Types.Log.{StorageLogQuery, StorageKey, StorageLog, key_of}
use ola_os.Types.Execution.{VmEvent}
use ola_os.Dedup.{
  StorageWritesDeduplicator, apply, new, process_storage_logs, process_if_write, process_log,
  note_initial, is_key_modified,
}
use ola_os.Dedup.Metrics.{HasKind}
use ola_os.SortStorage.{ExtendedQuery}
use ola_os.Updates.{
  MiniblockSealCommand, UpdatesManager, extend_from_fictive_transaction,
  extend_miniblock_from_fictive, seal_miniblock_command,
}
use ola_os.Updates.Pending.{apply-append}
use ola_os.SealLogic.{
  DbWrite, IncludedTxLocation, all_of, tx_index_range, assert_valid_miniblock, log_owner, location,
  write_logs_of, extract_write_logs, extract_events, group_by_tx_location, miniblock_writes,
  seal_inner,
}
use ola_os.SealLogic.Groups.{traverse-owned}
use ola_os.SealLogic.Miniblock.{write_log, write_logs_of-cons}
use ola_os.SealLogic.Batch.{
  VmBlockResult, BlockContext, Sealing, batch_writes, check_counts, seal_l1_batch,
}
use ola_os.SealLogic.History.{IsPlain, IsConsistent}
use ola_os.SealLogic.Sorting.{IsSort}
use ola_os.SealLogic.Agree.{check_counts-returns}

-- A log without its index: the machine gives the logs of a batch with the index 0.
abbrev pub unnumbered : StorageLogQuery → StorageLogQuery
unnumbered log = record log { log_query = record log.log_query { tx_number_in_block = 0 } }

-- The deduplicator does not look at the index.
apply-unnumbered :
    (logs : List StorageLogQuery) (d : StorageWritesDeduplicator)
    → apply (map unnumbered logs) d ≡ apply logs d
unfolding apply process_storage_logs process_if_write process_log note_initial is_key_modified
    key_of
apply-unnumbered [] d = refl
apply-unnumbered (log ∷ logs) d = apply-unnumbered logs (process_if_write log d).0

-- What a batch holds once its last miniblock is sealed, and what the end of the block adds: the logs
-- of the batch are, but for their indices, those that are counted and then those of the block's end,
-- which stand under the index after the last transaction.
pub record IsFinished (u : UpdatesManager) (r : VmBlockResult) (before : List StorageLogQuery)
    : Type 0 where
  pub accepted : r.revert_reason ≡ none
  pub no_transactions : u.miniblock.executed_transactions ≡ []
  pub no_events : u.miniblock.events ≡ []
  pub no_logs : u.miniblock.storage_logs ≡ []
  pub counted : u.storage_writes_deduplicator ≡ apply before new
  pub all_logs :
      map unnumbered r.storage_log_queries
      ≡ map unnumbered (before ++ r.block_tip_logs.storage_logs)
  pub events_after :
      All (λ e. e.tx_index ≡ length u.l1_batch.executed_transactions) r.block_tip_logs.events
  pub logs_after :
      All
        (λ l. l.log_query.tx_number_in_block ≡ length u.l1_batch.executed_transactions)
        r.block_tip_logs.storage_logs

-- A miniblock without transactions, whose entries stand under its first index.
module _ (c : MiniblockSealCommand) (empty : c.miniblock.executed_transactions ≡ []) where
  abbrev IsFirst : ℕ → Type 0
  IsFirst i = i ≡ c.first_tx_index

  all_of-first :
      {A : Type 0} (f : A → ℕ) (items : List A)
      → All (λ a. IsFirst (f a)) items
      → all_of (λ a. tx_index_range c true (f a)) items ≡ true
  all_of-first f [] h = refl
  all_of-first f (a ∷ items) h =
      let none_before : length c.miniblock.executed_transactions ≡ 0 = rw empty refl in
      let here : tx_index_range c true (f a) ≡ true = ground (arith, h.0, none_before) in
      rw (here, all_of-first f items h.1) refl

  abbrev fictive_location : ℕ → IncludedTxLocation
  fictive_location i = record {
    tx_hash = 0;
    tx_index_in_miniblock = (i + (u32_mod - c.first_tx_index % u32_mod)) % u32_mod;
    tx_initiator_address = 0;
  }

  same_index : (i : ℕ) → IsFirst i → (i == c.first_tx_index) ≡ true
  same_index i h = ground (arith, h)

  log_owner-first : (i : ℕ) → IsFirst i → log_owner c true i ≡ returns 0
  unfolding log_owner
  log_owner-first i h = rw (same_index i h) refl

  location-first : (i : ℕ) → IsFirst i → location c true i ≡ returns (fictive_location i)
  unfolding location
  location-first i h = rw (same_index i h) refl

  assert_valid_first :
      All (λ e. IsFirst e.tx_index) c.miniblock.events
      → All (λ l. IsFirst l.log_query.tx_number_in_block) c.miniblock.storage_logs
      → assert_valid_miniblock c true ≡ returns tt
  unfolding assert_valid_miniblock
  assert_valid_first events logs =
      let no_transactions : is_empty c.miniblock.executed_transactions ≡ true = rw empty refl in
      rw
        (
          no_transactions,
          all_of-first (λ e. e.tx_index) c.miniblock.events events,
          all_of-first (λ l. l.log_query.tx_number_in_block) c.miniblock.storage_logs logs,
        )
        refl

  extract_logs_first :
      All (λ l. IsFirst l.log_query.tx_number_in_block) c.miniblock.storage_logs
      → (groups : List (ℕ × List StorageLog)) × (extract_write_logs c true ≡ returns groups)
  unfolding extract_write_logs write_logs_of
  extract_logs_first logs =
      let (groups, e, o) =
        traverse-owned (log_owner c true) (λ i. 0) (λ l. l.log_query.tx_number_in_block)
          write_logs_of write_log refl write_logs_of-cons c.miniblock.storage_logs
          (All-map (λ l. log_owner-first l.log_query.tx_number_in_block) c.miniblock.storage_logs
            logs) in
      (groups, e)

  extract_events_first :
      All (λ e. IsFirst e.tx_index) c.miniblock.events
      → (groups : List (IncludedTxLocation × List VmEvent)) × (extract_events c true
          ≡ returns groups)
  unfolding extract_events group_by_tx_location
  extract_events_first events =
      let (groups, e, o) =
        traverse-owned (location c true) fictive_location (λ e. e.tx_index) (λ es. es) (λ e. e ∷ [])
          refl (λ e es. refl) c.miniblock.events
          (All-map (λ e. location-first e.tx_index) c.miniblock.events events) in
      (groups, e)

  -- The miniblock at the end of a batch is sealed without a panic.
  seal_fictive :
      (hash_bytes : List ℕ → ℕ)
      → All (λ e. IsFirst e.tx_index) c.miniblock.events
      → All (λ l. IsFirst l.log_query.tx_number_in_block) c.miniblock.storage_logs
      → (writes : List DbWrite) × (seal_inner hash_bytes c true ≡ returns writes)
  unfolding seal_inner
  seal_fictive hash_bytes events logs =
      let (write_logs, e) = extract_logs_first logs in
      let (located, e') = extract_events_first events in
      (
        miniblock_writes hash_bytes c write_logs located,
        rw (assert_valid_first events logs, e, e') refl,
      )

-- Sealing a batch does not panic, and neither does the check after its commit: if the machine has
-- not reverted, no miniblock is open, the end of the block stands under the index after the last
-- transaction, the deduplicator has counted the logs before that end, time has moved on since the
-- previous batch, and the logs of the batch, at most 2^32, are plain, read the values that their
-- slots have, and have one kind for each slot. The parallel sort has to sort.
pub seal_l1_batch-returns :
    (hash_bytes : List ℕ → ℕ) (hashed_key : StorageKey → ℕ)
    (par_sort : List ExtendedQuery → List ExtendedQuery) (filter_written_slots : List ℕ → ℕ → Bool)
    (kind : StorageKey → Bool) (current : StorageKey → ℕ) (before : List StorageLogQuery)
    (prev_timestamp miniblock_number l1_batch_number : ℕ) (u : UpdatesManager) (r : VmBlockResult)
    (context : BlockContext)
    → IsSort par_sort
    → IsFinished u r before
    → All IsPlain r.storage_log_queries
    → IsConsistent current r.storage_log_queries
    → All (HasKind kind) r.storage_log_queries
    → leb (length r.storage_log_queries) u32_mod ≡ true
    → ltb prev_timestamp context.block_timestamp ≡ true
    → (s : Sealing) × (seal_l1_batch hash_bytes hashed_key par_sort filter_written_slots
          prev_timestamp u miniblock_number l1_batch_number r context
        ≡ returns s)
      × (s.check ≡ returns tt)
unfolding seal_l1_batch extend_from_fictive_transaction extend_miniblock_from_fictive
    seal_miniblock_command
seal_l1_batch-returns hash_bytes hashed_key par_sort filter_written_slots kind current before
      prev_timestamp miniblock_number l1_batch_number u r context sort f plain consistent kinds
      bound later =
    let v = extend_from_fictive_transaction r.block_tip_logs u in
    let c = seal_miniblock_command l1_batch_number miniblock_number v in
    let same : v.storage_writes_deduplicator ≡ apply r.storage_log_queries new =
      ap (apply r.block_tip_logs.storage_logs) f.counted
      ∙ sym (apply-append before r.block_tip_logs.storage_logs new)
      ∙ sym (apply-unnumbered (before ++ r.block_tip_logs.storage_logs) new)
      ∙ ap (λ logs. apply logs new) (sym f.all_logs)
      ∙ apply-unnumbered r.storage_log_queries new in
    let (D, sorted, checked) =
      check_counts-returns hash_bytes hashed_key par_sort filter_written_slots kind current
        r.storage_log_queries v sort plain consistent kinds bound same in
    let (writes, sealed) =
      seal_fictive c f.no_transactions hash_bytes (rw f.no_events f.events_after)
        (rw f.no_logs f.logs_after) in
    (
      record {
        writes =
            batch_writes hash_bytes hashed_key par_sort filter_written_slots l1_batch_number context
              v writes D;
        check = check_counts hash_bytes hashed_key par_sort filter_written_slots v D;
      },
      rw (f.accepted, sealed, sorted, later) refl,
      checked,
    )
