-- ===== src/Dedup/Rollback.antt =====
-- `apply_and_rollback` leaves the modified keys and the metrics as they were.
use ola_os.Base.{
  ℕ, ◌<◌, ◌≡◌, refl, ap, Bool, true, false, List, [], ◌∷◌, ◌++◌, arith, inl, inr, Bool-cases,
}
use ola_os.Base.Map.{Map, contains, IsSorted}
use ola_os.Base.Map.Sorted.{add-IsSorted, remove-IsSorted, remove-add, add-remove}
use ola_os.Base.Words.{u64_mod, wrapping_add64, wrapping_sub64}
use ola_os.Types.Log.{
  LogQuery, key_of, is_initial_write, StorageLogQuery, StorageKey, storage_key_ord,
}
use ola_os.Dedup.{
  UpdateItem, StorageWritesDeduplicator, change, take_out, put_in, update_key, note_initial,
  is_key_modified, process_log, process_if_write, process_storage_logs, undo, rollback, apply,
  apply_and_rollback, new,
}

-- The modified keys are a set, and the counters are `usize`.
pub record IsValid (d : StorageWritesDeduplicator) : Type 0 where
  pub sorted : IsSorted d.modified_keys
  pub initial_fits : d.metrics.initial_storage_writes < u64_mod
  pub repeated_fits : d.metrics.repeated_storage_writes < u64_mod

pub update_key-IsValid :
    (was is : Bool) (k : StorageKey) (i : Bool) (d : StorageWritesDeduplicator)
    → IsValid d
    → IsValid (update_key was is k i d).0
unfolding update_key take_out put_in change wrapping_add64 wrapping_sub64
update_key-IsValid true false k true d v =
    ground (arith, remove-IsSorted k d.modified_keys v.sorted)
update_key-IsValid true false k false d v =
    ground (arith, remove-IsSorted k d.modified_keys v.sorted)
update_key-IsValid false true k true d v = ground (arith, add-IsSorted k d.modified_keys v.sorted)
update_key-IsValid false true k false d v = ground (arith, add-IsSorted k d.modified_keys v.sorted)
update_key-IsValid true true k i d v = v
update_key-IsValid false false k i d v = v

-- What one round has done to the keys and the metrics is undone by its update, whatever the
-- initial values are by then.
undo-update_key :
    (was is : Bool) (k : StorageKey) (i : Bool) (d : StorageWritesDeduplicator)
    (m : Map StorageKey ℕ)
    → IsValid d
    → contains k d.modified_keys ≡ was
    → let (d', u) = update_key was is k i d in
      rollback u (record d' { initial_values = m }) ≡ record d { initial_values = m }
unfolding update_key rollback undo take_out put_in change wrapping_add64 wrapping_sub64
undo-update_key true false k true d m v e = ground (arith, add-remove k d.modified_keys v.sorted e)
undo-update_key true false k false d m v e = ground (arith, add-remove k d.modified_keys v.sorted e)
undo-update_key false true k true d m v e = ground (arith, remove-add k d.modified_keys v.sorted e)
undo-update_key false true k false d m v e = ground (arith, remove-add k d.modified_keys v.sorted e)
undo-update_key true true k i d m v e = refl
undo-update_key false false k i d m v e = refl

note_initial-IsValid :
    (q : LogQuery) (d : StorageWritesDeduplicator) → IsValid d → IsValid (note_initial q d)
unfolding note_initial
note_initial-IsValid q d v = record {
  sorted = v.sorted;
  initial_fits = v.initial_fits;
  repeated_fits = v.repeated_fits;
}

pub process_write :
    (log : StorageLogQuery) (d : StorageWritesDeduplicator)
    → log.log_query.rw_flag ≡ true
    → process_if_write log d ≡ process_log log d
unfolding process_if_write
process_write log d write = simp write

pub process_read :
    (log : StorageLogQuery) (d : StorageWritesDeduplicator)
    → log.log_query.rw_flag ≡ false
    → process_if_write log d ≡ (d, [])
unfolding process_if_write
process_read log d read = simp read

pub process_if_write-IsValid :
    (log : StorageLogQuery) (d : StorageWritesDeduplicator)
    → IsValid d
    → IsValid (process_if_write log d).0
unfolding process_log
process_if_write-IsValid log d v = elim (Bool-cases log.log_query.rw_flag) [
  | inl write ↦ rw (process_write log d write) (
      update_key-IsValid (contains (key_of log.log_query) d.modified_keys)
        (is_key_modified log.log_query d) (key_of log.log_query) (is_initial_write log.log_type)
        (note_initial log.log_query d) (note_initial-IsValid log.log_query d v))
  | inr read ↦ rw (process_read log d read) v
]

undo-process_if_write :
    (log : StorageLogQuery) (d : StorageWritesDeduplicator) (m : Map StorageKey ℕ)
    → IsValid d
    → let (d', u) = process_if_write log d in
      rollback u (record d' { initial_values = m }) ≡ record d { initial_values = m }
unfolding process_log note_initial
undo-process_if_write log d m v = elim (Bool-cases log.log_query.rw_flag) [
  | inl write ↦ rw (process_write log d write) (
      undo-update_key (contains (key_of log.log_query) d.modified_keys)
        (is_key_modified log.log_query d) (key_of log.log_query) (is_initial_write log.log_type)
        (note_initial log.log_query d) m (note_initial-IsValid log.log_query d v) refl)
  | inr read ↦ rw (process_read log d read) (unfold rollback in refl)
]

rollback-append :
    (us ws : List UpdateItem) (d : StorageWritesDeduplicator)
    → rollback (us ++ ws) d ≡ rollback us (rollback ws d)
unfolding rollback
rollback-append [] ws d = refl
rollback-append (u ∷ us) ws d = rw (rollback-append us ws d)

-- All updates undone, in reverse, give back everything but the initial values.
pub rollback-process :
    (logs : List StorageLogQuery) (d : StorageWritesDeduplicator)
    → IsValid d
    → let (d', us) = process_storage_logs logs d in
      rollback us d' ≡ record d { initial_values = d'.initial_values }
unfolding process_storage_logs
rollback-process [] d v = unfold rollback in refl
rollback-process (log ∷ logs) d v =
    let (d', u) = process_if_write log d in
    let (d'', us) = process_storage_logs logs d' in
    rw (rollback-append u us d'') (
      rw (rollback-process logs d' (process_if_write-IsValid log d v))
        (undo-process_if_write log d d''.initial_values v))

-- From a valid state the dry run returns the metrics that the logs would lead to, and changes
-- neither the modified keys nor the metrics.
pub apply_and_rollback_lem :
    (logs : List StorageLogQuery) (d : StorageWritesDeduplicator)
    → IsValid d
    → let (d', m) = apply_and_rollback logs d in
      (d'.modified_keys ≡ d.modified_keys) × (d'.metrics ≡ d.metrics) × (m ≡ (apply logs d).metrics)
unfolding apply_and_rollback apply
apply_and_rollback_lem logs d v = (
  ap (λ s. s.modified_keys) (rollback-process logs d v),
  ap (λ s. s.metrics) (rollback-process logs d v),
  refl,
)

pub apply-IsValid :
    (logs : List StorageLogQuery) (d : StorageWritesDeduplicator)
    → IsValid d
    → IsValid (apply logs d)
unfolding apply process_storage_logs
apply-IsValid [] d v = v
apply-IsValid (log ∷ logs) d v =
    apply-IsValid logs (process_if_write log d).0 (process_if_write-IsValid log d v)

pub new-IsValid : IsValid new
unfolding new
new-IsValid = omega arith
