-- ===== src/SealLogic/WholeTests.antt =====
-- A sort by insertion, and a batch with logs of a transaction and of its end.
use Prim.Native.Nat.{Ordering}
use mathlib.Core.List.{Permᴰ}
use mathlib.Core.List.Permᴰ
use ola_os.Base.{
  ℕ, ◌≡◌, ◌≢◌, refl, inl, inr, Bool, true, false, Bool-cases, none, some, List, [], ◌∷◌, ◌++◌, All,
  All-map, map, returns, length, ◌==◌, if◌then◌else◌, arith,
}
use ola_os.Types.Tx.{TransactionType, l2}
use ola_os.Types.Log.{StorageLogQuery, StorageLogQueryType, StorageKey, key_of, is_initial_write}
use ola_os.Types.Execution.{TransactionExecutionResult, TxExecutionStatus, default}
use ola_os.Dedup.{apply, new}
use ola_os.Dedup.Metrics.{HasKind}
use ola_os.SortStorage.{ExtendedQuery, cmp_queries}
use ola_os.Updates
use ola_os.Updates.{UpdatesManager}
use ola_os.SealLogic.Batch.{VmBlockResult, BlockContext, Sealing, seal_l1_batch}
use ola_os.SealLogic.History.{IsPlain, IsConsistent}
use ola_os.SealLogic.Sorting.{IsSort, IsOrdered}
use ola_os.SealLogic.Whole.{IsFinished, unnumbered, seal_l1_batch-returns}

abbrev is_gt : Ordering → Bool
is_gt Ordering.gt = true
is_gt _ = false

abbrev insert : ExtendedQuery → List ExtendedQuery → List ExtendedQuery
insert e [] = e ∷ []
insert e (f ∷ fs) = if is_gt (cmp_queries e f) then f ∷ insert e fs else e ∷ f ∷ fs

abbrev sort : List ExtendedQuery → List ExtendedQuery
sort [] = []
sort (e ∷ es) = insert e (sort es)

insert-reorders : (e : ExtendedQuery) (es : List ExtendedQuery) → Permᴰ (insert e es) (e ∷ es)
insert-reorders e [] = Permᴰ.cons refl Permᴰ.nil
insert-reorders e (f ∷ fs) = elim (Bool-cases (is_gt (cmp_queries e f))) [
  | inl after ↦
      rw after (Permᴰ.trans (Permᴰ.cons refl (insert-reorders e fs)) (Permᴰ.swap refl refl))
  | inr before ↦ rw before (Permᴰ.refl (e ∷ f ∷ fs))
]

sort-reorders : (es : List ExtendedQuery) → Permᴰ (sort es) es
sort-reorders [] = Permᴰ.nil
sort-reorders (e ∷ es) =
    Permᴰ.trans (insert-reorders e (sort es)) (Permᴰ.cons refl (sort-reorders es))

before_trans :
    (e f g : ExtendedQuery)
    → cmp_queries e f ≢ Ordering.gt
    → cmp_queries f g ≢ Ordering.gt
    → cmp_queries e g ≢ Ordering.gt
before_trans e f g h k = ground (arith, h, k)

after-before :
    (e f : ExtendedQuery) → is_gt (cmp_queries e f) ≡ true → cmp_queries f e ≢ Ordering.gt
after-before e f h = ground (arith, h)

before : (e f : ExtendedQuery) → is_gt (cmp_queries e f) ≡ false → cmp_queries e f ≢ Ordering.gt
before e f h = ground (arith, h)

insert-All :
    (P : ExtendedQuery → Type 0) (e : ExtendedQuery) (es : List ExtendedQuery)
    → P e
    → All P es
    → All P (insert e es)
insert-All P e [] p h = (p, tt)
insert-All P e (f ∷ fs) p h = elim (Bool-cases (is_gt (cmp_queries e f))) [
  | inl after ↦ rw after (h.0, insert-All P e fs p h.1)
  | inr not_after ↦ rw not_after (p, h)
]

insert-IsOrdered :
    (e : ExtendedQuery) (es : List ExtendedQuery) → IsOrdered es → IsOrdered (insert e es)
unfolding IsOrdered
insert-IsOrdered e [] h = (tt, tt)
insert-IsOrdered e (f ∷ fs) h = elim (Bool-cases (is_gt (cmp_queries e f))) [
  | inl after ↦ rw after (
    insert-All (λ g. cmp_queries f g ≢ Ordering.gt) e fs (after-before e f after) h.0,
    insert-IsOrdered e fs h.1,
  )
  | inr not_after ↦ rw not_after (
    (before e f not_after, All-map (λ g k. before_trans e f g (before e f not_after) k) fs h.0),
    h,
  )
]

sort-IsOrdered : (es : List ExtendedQuery) → IsOrdered (sort es)
unfolding IsOrdered
sort-IsOrdered [] = tt
sort-IsOrdered (e ∷ es) = insert-IsOrdered e (sort es) (sort-IsOrdered es)

sort-IsSort : IsSort sort
sort-IsSort = record { ordered = sort-IsOrdered; reorders = λ es. ∣ sort-reorders es ∣₁ }

abbrev log : StorageLogQueryType → ℕ → ℕ → ℕ → ℕ → Bool → StorageLogQuery
log kind index key old value rw_flag = record {
  log_query = record {
    timestamp = 0;
    tx_number_in_block = index;
    aux_byte = 0;
    shard_id = 0;
    address = 1;
    key = key;
    read_value = old;
    written_value = value;
    rw_flag = rw_flag;
    rollback = false;
    is_service = false;
  };
  log_type = kind;
}

-- Slot 5 is changed for the first time, and slot 4 again.
abbrev before_logs : List StorageLogQuery
before_logs =
    log StorageLogQueryType.initial_write 0 5 0 9 true
    ∷ log StorageLogQueryType.repeated_write 0 4 1 2 true
    ∷ []

-- Slot 4 is changed back, and slot 3 is changed.
abbrev tip_logs : List StorageLogQuery
tip_logs =
    log StorageLogQueryType.read 1 5 9 9 false
    ∷ log StorageLogQueryType.repeated_write 1 4 2 1 true
    ∷ log StorageLogQueryType.repeated_write 1 3 7 8 true
    ∷ []

-- The machine gives the logs of the whole batch with the index 0.
abbrev all_logs : List StorageLogQuery
all_logs = map unnumbered (before_logs ++ tip_logs)

abbrev block_result : VmBlockResult
block_result = record {
  revert_reason = none;
  storage_log_queries = all_logs;
  block_tip_logs = record {
    storage_logs = tip_logs;
    events =
        record { batch_number = 2; tx_index = 1; address = 5; indexed_topics = []; value = [] }
        ∷ [];
    total_log_queries_count = 3;
  };
}

abbrev current : StorageKey → ℕ
current k = if k.key == 3 then 7 else if k.key == 4 then 1 else 0

abbrev kind : StorageKey → Bool
kind k = k.key == 5

plain : All IsPlain all_logs
plain = ((refl, refl), ((refl, refl), ((refl, refl), ((refl, refl), ((refl, refl), tt)))))

consistent : IsConsistent current all_logs
unfolding IsConsistent key_of
consistent = (refl, (refl, (refl, (refl, (refl, tt)))))

kinds : All (HasKind kind) all_logs
unfolding is_initial_write key_of
kinds = ((λ h. refl), ((λ h. refl), ((λ h. cc), ((λ h. refl), ((λ h. refl), tt)))))

abbrev executed : TransactionExecutionResult
executed = record {
  transaction = record {
    common_data = l2 (record {
      nonce = 3;
      initiator_address = 70;
      signature = [];
      transaction_type = TransactionType.ola_raw_transaction;
      input = some (record { hash = 11; bytes = [] });
    });
    execute = record { contract_address = 5; calldata = []; factory_deps = none };
    received_timestamp_ms = 0;
  };
  hash = 11;
  execution_info = default;
  execution_status = TxExecutionStatus.success;
  revert_reason = none;
}

abbrev opened : UpdatesManager
opened = Updates.new 4 (record { entrypoint = 0; default_aa = 1 }) 0

abbrev updates : UpdatesManager
updates = record opened {
  l1_batch = record opened.l1_batch { executed_transactions = executed ∷ [] };
  storage_writes_deduplicator = apply before_logs new;
}

finished : IsFinished updates block_result before_logs
unfolding Updates.new Updates.new_miniblock
finished = record {
  accepted = refl;
  no_transactions = refl;
  no_events = refl;
  no_logs = refl;
  counted = refl;
  all_logs = refl;
  events_after = (refl, tt);
  logs_after = (refl, (refl, (refl, tt)));
}

abbrev context : BlockContext
context = record { block_number = 2; block_timestamp = 40; operator_address = 6 }

seal_l1_batch-returns_example :
    (s : Sealing) × (seal_l1_batch length
        (λ k. k.key)
        sort
        (λ keys key. false)
        30
        updates
        8
        2
        block_result
        context
      ≡ returns s)
    × (s.check ≡ returns tt)
seal_l1_batch-returns_example =
    seal_l1_batch-returns length (λ k. k.key) sort (λ keys key. false) kind current before_logs 30 8
      2 updates block_result context sort-IsSort finished plain consistent kinds refl refl
