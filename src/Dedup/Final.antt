-- ===== src/Dedup/Final.antt =====
-- Which keys the deduplicator counts as modified, against a reading of the whole log: a key is
-- modified if the value after its last write differs from what its first write read.
use ola_os.Base.{
  ℕ, ◌≡◌, ◌≢◌, refl, sym, subst, ◌∙◌, inl, inr, Bool, true, false, not, ◌&&◌, Option, none, some,
  List, [], ◌∷◌, arith, Ordering, Bool-cases, Option-cases, ◌==◌, if◌then◌else◌,
}
use ola_os.Base.Map
use ola_os.Base.Map.{Map, Set, contains, IsSorted}
use ola_os.Base.Map.Laws.{
  lookup-insert_self, lookup-insert_ne, contains-add_self, contains-add_ne, contains-remove_self,
  contains-remove_ne,
}
use ola_os.Types.Log.{
  LogQuery, StorageLogQuery, StorageKey, storage_key_ord, storage_key_cmp, storage_key_cmp-eq,
  key_of, value_after, is_initial_write,
}
use ola_os.Dedup.{
  StorageWritesDeduplicator, take_out, put_in, update_key, note_initial, is_key_modified,
  process_log, process_if_write, process_storage_logs, apply, new, value_or, or_insert,
}
use ola_os.Dedup.Rollback.{
  IsValid, process_write, process_read, process_if_write-IsValid, new-IsValid,
}

abbrev pub same_key : StorageKey → StorageKey → Bool
same_key j k = elim (storage_key_cmp j k) [ Ordering.eq ↦ true | _ ↦ false ]

-- The log writes to the key.
abbrev pub writes_to : StorageKey → StorageLogQuery → Bool
writes_to k log = log.log_query.rw_flag && same_key k (key_of log.log_query)

-- What the first write to the key read.
unfoldable pub first_read : StorageKey → List StorageLogQuery → Option ℕ
first_read k [] = none
first_read k (log ∷ logs) =
    if writes_to k log then some log.log_query.read_value else first_read k logs

abbrev pub or_else : Option ℕ → Option ℕ → Option ℕ
or_else (some a) b = some a
or_else none b = b

-- The value after the last write to the key.
unfoldable pub last_value : StorageKey → List StorageLogQuery → Option ℕ
last_value k [] = none
last_value k (log ∷ logs) =
    or_else (last_value k logs) (if writes_to k log then some (value_after log.log_query) else none)

-- A key with a last value has a first read.
last_value-first_read :
    (k : StorageKey) (logs : List StorageLogQuery)
    → first_read k logs ≡ none
    → last_value k logs ≡ none
unfolding first_read last_value
last_value-first_read k [] h = refl
last_value-first_read k (log ∷ logs) h = ground (arith, last_value-first_read k logs)

abbrev pub differs : Option ℕ → Option ℕ → Bool
differs (some a) (some b) = not (a == b)
differs (some a) none = false
differs none b = false

update_key_initial :
    (was is : Bool) (k : StorageKey) (i : Bool) (d : StorageWritesDeduplicator)
    → (update_key was is k i d).0.initial_values ≡ d.initial_values
unfolding update_key take_out put_in
update_key_initial true true k i d = refl
update_key_initial true false k i d = refl
update_key_initial false true k i d = refl
update_key_initial false false k i d = refl

update_key_own :
    (was is : Bool) (k : StorageKey) (i : Bool) (d : StorageWritesDeduplicator)
    → IsSorted d.modified_keys
    → contains k d.modified_keys ≡ was
    → contains k (update_key was is k i d).0.modified_keys ≡ is
unfolding update_key take_out put_in
update_key_own true true k i d v e = e
update_key_own true false k i d v e = contains-remove_self k d.modified_keys v
update_key_own false true k i d v e = contains-add_self k d.modified_keys
update_key_own false false k i d v e = e

update_key_ne :
    (was is : Bool) (j k : StorageKey) (i : Bool) (d : StorageWritesDeduplicator)
    → j ≢ k
    → contains j (update_key was is k i d).0.modified_keys ≡ contains j d.modified_keys
unfolding update_key take_out put_in
update_key_ne true true j k i d h = refl
update_key_ne true false j k i d h = contains-remove_ne j k d.modified_keys h
update_key_ne false true j k i d h = contains-add_ne j k d.modified_keys h
update_key_ne false false j k i d h = refl

note_initial_own :
    (q : LogQuery) (d : StorageWritesDeduplicator)
    → Map.lookup (key_of q) (note_initial q d).initial_values
      ≡ some (value_or (Map.lookup (key_of q) d.initial_values) q.read_value)
unfolding note_initial
note_initial_own q d = elim (Option-cases (Map.lookup (key_of q) d.initial_values)) [
  | inl unknown ↦
      rw (unknown, or_insert) (lookup-insert_self (key_of q) q.read_value d.initial_values)
  | inr (v, known) ↦ rw (known, or_insert) known
]

note_initial_ne :
    (k : StorageKey) (q : LogQuery) (d : StorageWritesDeduplicator)
    → k ≢ key_of q
    → Map.lookup k (note_initial q d).initial_values ≡ Map.lookup k d.initial_values
unfolding note_initial
note_initial_ne k q d h = elim (Option-cases (Map.lookup (key_of q) d.initial_values)) [
  | inl unknown ↦
      rw (unknown, or_insert) (lookup-insert_ne k (key_of q) q.read_value d.initial_values h)
  | inr (v, known) ↦ rw (known, or_insert)
]

is_key_modified_lem :
    (q : LogQuery) (d : StorageWritesDeduplicator)
    → is_key_modified q d
      ≡ not (value_or (Map.lookup (key_of q) d.initial_values) q.read_value == value_after q)
unfolding is_key_modified value_after
is_key_modified_lem q d = ground arith

and_true : (a b : Bool) → (a && b) ≡ true → (a ≡ true) × (b ≡ true)
and_true a b h = ground arith

not_same :
    (k : StorageKey) (log : StorageLogQuery)
    → log.log_query.rw_flag ≡ true
    → writes_to k log ≡ false
    → k ≢ key_of log.log_query
unfolding key_of
not_same k log write h e = ground (arith, write, h, e)

-- What a round does to the key that it writes.
module _ (log : StorageLogQuery) (d : StorageWritesDeduplicator) (v : IsValid d)
    (write : log.log_query.rw_flag ≡ true) where
  abbrev own : StorageKey
  own = key_of log.log_query

  initial_own :
      Map.lookup own (process_if_write log d).0.initial_values
      ≡ some (value_or (Map.lookup own d.initial_values) log.log_query.read_value)
  unfolding process_log
  initial_own = rw (process_write log d write) (
      rw
        (update_key_initial (contains own d.modified_keys) (is_key_modified log.log_query d) own
          (is_initial_write log.log_type) (note_initial log.log_query d))
        (note_initial_own log.log_query d))

  modified_own :
      contains own (process_if_write log d).0.modified_keys
      ≡ not (
          value_or (Map.lookup own d.initial_values) log.log_query.read_value
          == value_after log.log_query)
  unfolding process_log note_initial
  modified_own = rw (process_write log d write) (
      update_key_own (contains own d.modified_keys) (is_key_modified log.log_query d) own
        (is_initial_write log.log_type) (note_initial log.log_query d) v.sorted refl
      ∙ is_key_modified_lem log.log_query d)

-- And to any other key: nothing.
process_other :
    (k : StorageKey) (log : StorageLogQuery) (d : StorageWritesDeduplicator)
    → writes_to k log ≡ false
    → (Map.lookup k (process_if_write log d).0.initial_values ≡ Map.lookup k d.initial_values)
      × (contains k (process_if_write log d).0.modified_keys ≡ contains k d.modified_keys)
unfolding process_log
process_other k log d h = elim (Bool-cases log.log_query.rw_flag) [
  | inr read ↦ rw (process_read log d read) (refl, refl)
  | inl write ↦
      let q = log.log_query in
      let other : k ≢ key_of q = λ e. not_same k log write h e in
      rw (process_write log d write) (
        rw
          (update_key_initial (contains (key_of q) d.modified_keys) (is_key_modified q d) (key_of q)
            (is_initial_write log.log_type) (note_initial q d))
          (
            note_initial_ne k q d other,
            update_key_ne (contains (key_of q) d.modified_keys) (is_key_modified q d) k (key_of q)
                  (is_initial_write log.log_type) (note_initial q d) other
                ∙ (unfold note_initial in refl),
          ))
]

process_own :
    (k : StorageKey) (log : StorageLogQuery) (d : StorageWritesDeduplicator)
    → IsValid d
    → writes_to k log ≡ true
    → (Map.lookup k (process_if_write log d).0.initial_values
        ≡ some (value_or (Map.lookup k d.initial_values) log.log_query.read_value))
      × (contains k (process_if_write log d).0.modified_keys
          ≡ not (
              value_or (Map.lookup k d.initial_values) log.log_query.read_value
              == value_after log.log_query))
process_own k log d v h =
    let (write, same) = and_true log.log_query.rw_flag (same_key k (key_of log.log_query)) h in
    let e = storage_key_cmp-eq k (key_of log.log_query) (ground (arith, same)) in
    subst
      (λ j.
        (Map.lookup j (process_if_write log d).0.initial_values
          ≡ some (value_or (Map.lookup j d.initial_values) log.log_query.read_value))
        × (contains j (process_if_write log d).0.modified_keys
            ≡ not (
                value_or (Map.lookup j d.initial_values) log.log_query.read_value
                == value_after log.log_query)))
      (sym e) (initial_own log d v write, modified_own log d v write)

-- Whether a key is modified in the end: as before if no log writes it.
abbrev pub settled : Bool → Option ℕ → Option ℕ → Bool
settled was initial none = was
settled was initial (some v) = differs initial (some v)

-- The state after the logs, key by key.
pub process_final :
    (k : StorageKey) (logs : List StorageLogQuery) (d : StorageWritesDeduplicator)
    → IsValid d
    → contains k (apply logs d).modified_keys
      ≡ settled
          (contains k d.modified_keys)
          (or_else (Map.lookup k d.initial_values) (first_read k logs))
          (last_value k logs)
unfolding apply process_storage_logs first_read last_value
process_final k [] d v = refl
process_final k (log ∷ logs) d v =
    let rest = process_final k logs (process_if_write log d).0 (process_if_write-IsValid log d v) in
    elim (Bool-cases (writes_to k log)) [
      | inl own ↦ ground (arith, rest, process_own k log d v own, own)
      | inr other ↦ ground (arith, rest, process_other k log d other, other)
    ]

-- Starting from nothing, a key is modified exactly if the log writes it and the value after the
-- last write differs from the value that the first write read.
pub net_writes :
    (k : StorageKey) (logs : List StorageLogQuery)
    → contains k (apply logs new).modified_keys ≡ differs (first_read k logs) (last_value k logs)
unfolding new contains Map.lookup
net_writes k logs =
    ground (arith, process_final k logs new new-IsValid, last_value-first_read k logs)
