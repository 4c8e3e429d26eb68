-- ===== src/Dedup.antt =====
-- The deduplicator of storage writes (types/src/storage_writes_deduplicator.rs). Its counters are
-- `usize` and wrap as they do in a release build.
pub mod Rollback
pub mod Final
pub mod Metrics
mod Tests
use ola_os.Base.{
  ℕ, Bool, true, false, not, Option, none, some, List, [], ◌∷◌, ◌++◌, ◌==◌, if◌then◌else◌,
}
use ola_os.Base.Map
use ola_os.Base.Map.{Map, Set, contains}
use ola_os.Base.Words.{wrapping_add64, wrapping_sub64}
use ola_os.Types.Log.{
  LogQuery, StorageLogQuery, StorageKey, storage_key_ord, key_of, is_initial_write,
}

pub record DeduplicatedWritesMetrics : Type 0 where
  pub initial_storage_writes : ℕ
  pub repeated_storage_writes : ℕ

pub record UpdateItem : Type 0 where
  pub key : StorageKey
  pub is_insertion : Bool
  pub is_write_initial : Bool

pub record StorageWritesDeduplicator : Type 0 where
  pub initial_values : Map StorageKey ℕ
  pub modified_keys : Set StorageKey
  pub metrics : DeduplicatedWritesMetrics

unfoldable pub new : StorageWritesDeduplicator
new = record {
  initial_values = [];
  modified_keys = [];
  metrics = record { initial_storage_writes = 0; repeated_storage_writes = 0 };
}

-- `field_to_change` by the kind of the write, and the change.
unfoldable pub change : Bool → (ℕ → ℕ) → DeduplicatedWritesMetrics → DeduplicatedWritesMetrics
change true f m = record m { initial_storage_writes = f m.initial_storage_writes }
change false f m = record m { repeated_storage_writes = f m.repeated_storage_writes }

abbrev pub incremented : ℕ → ℕ
incremented n = wrapping_add64 n 1

abbrev pub decremented : ℕ → ℕ
decremented n = wrapping_sub64 n 1

-- `entry(key).or_insert(value)`: the value that is there afterwards.
abbrev pub value_or : Option ℕ → ℕ → ℕ
value_or none v = v
value_or (some w) v = w

abbrev pub or_insert : Option ℕ → StorageKey → ℕ → Map StorageKey ℕ → Map StorageKey ℕ
or_insert none k v m = Map.insert k v m
or_insert (some w) k v m = m

-- The key leaves the modified keys.
unfoldable pub take_out : StorageKey → Bool → StorageWritesDeduplicator → StorageWritesDeduplicator
unfolding change
take_out k is_initial d = record d {
  modified_keys = Map.remove k d.modified_keys;
  metrics = change is_initial decremented d.metrics;
}

-- The key enters the modified keys.
unfoldable pub put_in : StorageKey → Bool → StorageWritesDeduplicator → StorageWritesDeduplicator
unfolding change
put_in k is_initial d = record d {
  modified_keys = Map.add k d.modified_keys;
  metrics = change is_initial incremented d.metrics;
}

-- The `match` on whether the key was modified and is now.
unfoldable pub update_key :
    Bool
    → Bool
    → StorageKey
    → Bool
    → StorageWritesDeduplicator
    → StorageWritesDeduplicator × List UpdateItem
update_key true false k is_initial d = (
  take_out k is_initial d,
  record { key = k; is_insertion = false; is_write_initial = is_initial } ∷ [],
)
update_key false true k is_initial d = (
  put_in k is_initial d,
  record { key = k; is_insertion = true; is_write_initial = is_initial } ∷ [],
)
update_key true true k is_initial d = (d, [])
update_key false false k is_initial d = (d, [])

-- The read value of the first write to a key is its initial value.
unfoldable pub note_initial : LogQuery → StorageWritesDeduplicator → StorageWritesDeduplicator
note_initial q d = record d {
  initial_values =
      or_insert (Map.lookup (key_of q) d.initial_values) (key_of q) q.read_value d.initial_values;
}

-- Whether the key differs from its initial value after the write.
unfoldable pub is_key_modified : LogQuery → StorageWritesDeduplicator → Bool
is_key_modified q d =
    let initial_value = value_or (Map.lookup (key_of q) d.initial_values) q.read_value in
    if q.rollback
    then not (initial_value == q.read_value)
    else not (initial_value == q.written_value)

-- One round of the loop, on a write log, and the update that it pushes.
unfoldable pub process_log :
    StorageLogQuery → StorageWritesDeduplicator → StorageWritesDeduplicator × List UpdateItem
process_log log d =
    update_key (contains (key_of log.log_query) d.modified_keys) (is_key_modified log.log_query d)
      (key_of log.log_query) (is_initial_write log.log_type) (note_initial log.log_query d)

-- Reads are skipped.
unfoldable pub process_if_write :
    StorageLogQuery → StorageWritesDeduplicator → StorageWritesDeduplicator × List UpdateItem
unfolding process_log
process_if_write log d = if log.log_query.rw_flag then process_log log d else (d, [])

unfoldable pub process_storage_logs :
    List StorageLogQuery → StorageWritesDeduplicator → StorageWritesDeduplicator × List UpdateItem
process_storage_logs [] d = (d, [])
process_storage_logs (log ∷ logs) d =
    let (d', u) = process_if_write log d in
    let (d'', us) = process_storage_logs logs d' in (d'', u ++ us)

unfoldable pub undo : UpdateItem → StorageWritesDeduplicator → StorageWritesDeduplicator
unfolding take_out put_in
undo item d =
    if item.is_insertion
    then take_out item.key item.is_write_initial d
    else put_in item.key item.is_write_initial d

-- The loop runs over the updates in reverse: the last one is undone first.
unfoldable pub rollback : List UpdateItem → StorageWritesDeduplicator → StorageWritesDeduplicator
rollback [] d = d
rollback (item ∷ items) d = undo item (rollback items d)

unfoldable pub apply : List StorageLogQuery → StorageWritesDeduplicator → StorageWritesDeduplicator
apply logs d = (process_storage_logs logs d).0

unfoldable pub apply_and_rollback :
    List StorageLogQuery
    → StorageWritesDeduplicator
    → StorageWritesDeduplicator × DeduplicatedWritesMetrics
apply_and_rollback logs d =
    let (d', updates) = process_storage_logs logs d in (rollback updates d', d'.metrics)

unfoldable pub apply_on_empty_state : List StorageLogQuery → DeduplicatedWritesMetrics
apply_on_empty_state logs = (apply logs new).metrics
