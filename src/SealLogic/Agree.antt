-- ===== src/SealLogic/Agree.antt =====
-- The two deduplications of a batch's logs (ola_core/src/sequencer/io/seal_logic.rs): the one in
-- flight, and the one when the batch is sealed, whose counts are compared.
use ola_os.Base.{
  ℕ, ◌+◌, ◌%◌, ◌≡◌, refl, sym, ap, subst, ◌∙◌, inl, inr, Bool, true, false, not, ◌&&◌, Bool-cases,
  List, [], ◌∷◌, map, All, returns, ◌==◌, leb, length, is_some, if◌then◌else◌, arith,
}
use ola_os.Base.Map.{contains, add, insert, lookup, IsSorted}
use ola_os.Base.Map.Count.{count, count-not, count_ext}
use ola_os.Base.Map.Sorted.{length-insert, length-remove}
use ola_os.Base.Words.{u32_mod, u64_mod, wrapping_add64}
use ola_os.Types.Log.{
  LogQuery, StorageLogQuery, StorageKey, storage_key_ord, key_of, is_initial_write,
}
use ola_os.Dedup.{
  StorageWritesDeduplicator, take_out, put_in, update_key, note_initial, is_key_modified,
  process_log, process_if_write, process_storage_logs, apply, new,
}
use ola_os.Dedup.Rollback.{
  IsValid, process_write, process_read, process_if_write-IsValid, new-IsValid,
}
use ola_os.Dedup.Metrics.{HasKind, apply-IsTallied, new-IsTallied}
use ola_os.Dedup.Final.{net_writes}
use ola_os.SortStorage.{
  ExtendedQuery, by_slot, enumerate, deduplicate_slots, sort_storage_access_queries,
}
use ola_os.Updates.{UpdatesManager}
use ola_os.SealLogic.{filter}
use ola_os.SealLogic.Batch.{is_write, check_counts}
use ola_os.SealLogic.History.{
  raw, of_key, IsPlain, IsConsistent, end_value, differs-end, history-Cell,
}
use ola_os.SealLogic.Slots.{
  heads, concat, IsGrouped, concat-by_slot, by_slot-IsGrouped, heads-IsSorted,
}
use ola_os.SealLogic.Sorting.{IsSort, ordered-IsAscending, sorted-OfShard, sorted-of_key}
use ola_os.SealLogic.Counting.{IsHistory, changes, deduplicate_slots-writes, changes-absent}

one_more : (b : Bool) (n m : ℕ) → n ≡ m + (if b then 0 else 1) → leb n (m + 1) ≡ true
one_more true n m h = ground (arith, h)
one_more false n m h = ground (arith, h)

-- A log modifies one more key at most.
length-update_key :
    (was is : Bool) (k : StorageKey) (i : Bool) (d : StorageWritesDeduplicator)
    → IsSorted d.modified_keys
    → leb (length (update_key was is k i d).0.modified_keys) (length d.modified_keys + 1) ≡ true
unfolding update_key take_out put_in add
length-update_key true false k i d h = ground (arith, length-remove k d.modified_keys)
length-update_key false true k i d h =
    one_more (is_some (lookup k d.modified_keys)) (length (insert k tt d.modified_keys))
      (length d.modified_keys) (length-insert k tt d.modified_keys h)
length-update_key true true k i d h = ground arith
length-update_key false false k i d h = ground arith

length-process_if_write :
    (log : StorageLogQuery) (d : StorageWritesDeduplicator)
    → IsSorted d.modified_keys
    → leb (length (process_if_write log d).0.modified_keys) (length d.modified_keys + 1) ≡ true
unfolding process_log note_initial
length-process_if_write log d h = elim (Bool-cases log.log_query.rw_flag) [
  | inl write ↦ rw (process_write log d write) (
      length-update_key (contains (key_of log.log_query) d.modified_keys)
        (is_key_modified log.log_query d) (key_of log.log_query) (is_initial_write log.log_type)
        (note_initial log.log_query d) h)
  | inr read ↦ rw (process_read log d read) (ground arith)
]

length-apply :
    (logs : List StorageLogQuery) (d : StorageWritesDeduplicator)
    → IsValid d
    → leb (length (apply logs d).modified_keys) (length d.modified_keys + length logs) ≡ true
unfolding apply process_storage_logs
length-apply [] d v = ground arith
length-apply (log ∷ logs) d v = ground (
  arith,
  length-apply logs (process_if_write log d).0 (process_if_write-IsValid log d v),
  length-process_if_write log d v.sorted,
)

few_keys :
    (logs : List StorageLogQuery)
    → leb (length logs) u32_mod ≡ true
    → leb (length (apply logs new).modified_keys) u32_mod ≡ true
unfolding new
few_keys logs bound = ground (arith, length-apply logs new new-IsValid, bound)

apply-IsValid :
    (logs : List StorageLogQuery) (d : StorageWritesDeduplicator)
    → IsValid d
    → IsValid (apply logs d)
unfolding apply process_storage_logs
apply-IsValid [] d v = v
apply-IsValid (log ∷ logs) d v =
    apply-IsValid logs (process_if_write log d).0 (process_if_write-IsValid log d v)

length-map : (logs : List StorageLogQuery) → length (map raw logs) ≡ length logs
length-map [] = refl
length-map (log ∷ logs) = ground (arith, length-map logs)

module _ (par_sort : List ExtendedQuery → List ExtendedQuery) (sort : IsSort par_sort)
    (current : StorageKey → ℕ) (logs : List StorageLogQuery) (plain : All IsPlain logs)
    (consistent : IsConsistent current logs) (bound : leb (length logs) u32_mod ≡ true) where
  abbrev sorted : List ExtendedQuery
  sorted = par_sort (enumerate 0 (map raw logs))

  abbrev final : StorageKey → ℕ
  final = end_value current logs

  grouped : IsGrouped (by_slot sorted)
  grouped =
      let shards = sorted-OfShard par_sort sort logs plain in
      by_slot-IsGrouped sorted shards
        (ordered-IsAscending sorted shards (sort.ordered (enumerate 0 (map raw logs))))

  histories : (k : StorageKey) → IsHistory current final k (of_key k (concat (by_slot sorted)))
  histories k =
      subst (λ es. IsHistory current final k (of_key k es)) (sym (concat-by_slot sorted))
        (subst (IsHistory current final k)
          (sym (
            sorted-of_key par_sort sort logs plain k
              (ap (λ n. leb n u32_mod) (length-map logs) ∙ bound)))
          (history-Cell k 0 current logs [] plain consistent))

  -- The keys modified in flight are the slots that change.
  modified :
      (k : StorageKey)
      → contains k (apply logs new).modified_keys
        ≡ (contains k (heads (by_slot sorted)) && changes current final k)
  modified k =
      net_writes k logs
      ∙ differs-end k current logs plain consistent
      ∙ elim (Bool-cases (contains k (heads (by_slot sorted)))) [
        | inl present ↦ rw present refl
        | inr absent ↦
            rw
              (absent, changes-absent current final (by_slot sorted) k grouped (histories k) absent)
              refl
      ]

  writes-modified :
      (D : List LogQuery) × (deduplicate_slots (by_slot sorted) ≡ returns D)
      × (length (filter is_write D) ≡ length (apply logs new).modified_keys)
  writes-modified =
      let (D, ran, writes) =
        deduplicate_slots-writes current final (by_slot sorted) grouped
          (λ k present. histories k) in
      (
        D,
        ran,
        writes
            ∙ count_ext (changes current final) (heads (by_slot sorted))
                (apply logs new).modified_keys (heads-IsSorted (by_slot sorted) grouped)
                (apply-IsValid logs new new-IsValid).sorted modified,
      )

fits :
    (N a b : ℕ)
    → a + b ≡ N
    → leb N u32_mod ≡ true
    → (N == wrapping_add64 (a % u64_mod) (b % u64_mod)) ≡ true
unfolding wrapping_add64
fits N a b h bound = ground (arith, h, bound)

-- If the logs of a batch are plain and each reads the value that its slot has, if each slot is
-- reported with one kind, and if there are at most 2^32 of them, then the deduplication at the end
-- does not fail, and the number of writes it leaves is the number that the in-flight deduplication
-- of the same logs has counted, so that the check that compares them passes.
pub check_counts-returns :
    (hash_bytes : List ℕ → ℕ) (hashed_key : StorageKey → ℕ)
    (par_sort : List ExtendedQuery → List ExtendedQuery) (filter_written_slots : List ℕ → ℕ → Bool)
    (kind : StorageKey → Bool) (current : StorageKey → ℕ) (logs : List StorageLogQuery)
    (u : UpdatesManager)
    → IsSort par_sort
    → All IsPlain logs
    → IsConsistent current logs
    → All (HasKind kind) logs
    → leb (length logs) u32_mod ≡ true
    → u.storage_writes_deduplicator ≡ apply logs new
    → (D : List LogQuery) × (sort_storage_access_queries par_sort (map raw logs)
        ≡ returns (par_sort (enumerate 0 (map raw logs)), D))
      × (check_counts hash_bytes hashed_key par_sort filter_written_slots u D ≡ returns tt)
unfolding sort_storage_access_queries check_counts
check_counts-returns hash_bytes hashed_key par_sort filter_written_slots kind current logs u sort
      plain consistent kinds bound same =
    let (D, ran, writes) = writes-modified par_sort sort current logs plain consistent bound in
    let keys = (apply logs new).modified_keys in
    let tallied = apply-IsTallied kind logs new kinds (new-IsTallied kind) in
    let m = u.storage_writes_deduplicator.metrics in
    let test : (length (filter is_write D)
          == wrapping_add64 m.initial_storage_writes m.repeated_storage_writes)
        ≡ true =
      rw (writes, same, tallied.initial, tallied.repeated)
        (fits (length keys) (count kind keys) (count (λ k. not (kind k)) keys) (count-not kind keys)
          (few_keys logs bound)) in
    (D, rw ran refl, rw test refl)
