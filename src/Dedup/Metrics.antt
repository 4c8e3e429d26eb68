-- ===== src/Dedup/Metrics.antt =====
-- The deduplicator's counters against the set of modified keys.
use ola_os.Base.{
  ◌%◌, ◌≡◌, refl, inl, inr, Bool, true, false, not, List, [], ◌∷◌, All, arith, Bool-cases,
}
use ola_os.Base.Map.{contains}
use ola_os.Base.Map.Count.{count, count-add, count-remove}
use ola_os.Base.Words.{u64_mod, wrapping_add64, wrapping_sub64}
use ola_os.Types.Log.{StorageLogQuery, StorageKey, storage_key_ord, key_of, is_initial_write}
use ola_os.Dedup.{
  StorageWritesDeduplicator, change, take_out, put_in, update_key, note_initial, is_key_modified,
  process_log, process_if_write, process_storage_logs, apply, apply_on_empty_state, new,
}
use ola_os.Dedup.Rollback.{process_write, process_read}

-- Every write to a key is reported with the kind of that key.
abbrev pub HasKind : (StorageKey → Bool) → StorageLogQuery → Type 0
HasKind kind log =
    log.log_query.rw_flag ≡ true → is_initial_write log.log_type ≡ kind (key_of log.log_query)

-- Each counter is the number of modified keys of its kind, as a `usize`.
pub record IsTallied (kind : StorageKey → Bool) (d : StorageWritesDeduplicator) : Type 0 where
  pub initial : d.metrics.initial_storage_writes ≡ count kind d.modified_keys % u64_mod
  pub repeated :
      d.metrics.repeated_storage_writes ≡ count (λ k. not (kind k)) d.modified_keys % u64_mod

module _ (kind : StorageKey → Bool) where
  update_key-IsTallied :
      (was is : Bool) (k : StorageKey) (i : Bool) (d : StorageWritesDeduplicator)
      → IsTallied kind d
      → contains k d.modified_keys ≡ was
      → i ≡ kind k
      → IsTallied kind (update_key was is k i d).0
  unfolding update_key take_out put_in change wrapping_add64 wrapping_sub64
  update_key-IsTallied true true k i d t e h = t
  update_key-IsTallied false false k i d t e h = t
  update_key-IsTallied true false k true d t e h = ground (
    arith,
    h,
    count-remove kind k d.modified_keys e,
    count-remove (λ j. not (kind j)) k d.modified_keys e,
  )
  update_key-IsTallied true false k false d t e h = ground (
    arith,
    h,
    count-remove kind k d.modified_keys e,
    count-remove (λ j. not (kind j)) k d.modified_keys e,
  )
  update_key-IsTallied false true k true d t e h = ground (
    arith,
    h,
    count-add kind k d.modified_keys e,
    count-add (λ j. not (kind j)) k d.modified_keys e,
  )
  update_key-IsTallied false true k false d t e h = ground (
    arith,
    h,
    count-add kind k d.modified_keys e,
    count-add (λ j. not (kind j)) k d.modified_keys e,
  )

  process_if_write-IsTallied :
      (log : StorageLogQuery) (d : StorageWritesDeduplicator)
      → HasKind kind log
      → IsTallied kind d
      → IsTallied kind (process_if_write log d).0
  unfolding process_log
  process_if_write-IsTallied log d h t = elim (Bool-cases log.log_query.rw_flag) [
    | inl write ↦ rw (process_write log d write) (
        update_key-IsTallied (contains (key_of log.log_query) d.modified_keys)
          (is_key_modified log.log_query d) (key_of log.log_query) (is_initial_write log.log_type)
          (note_initial log.log_query d)
          (unfold note_initial in record { initial = t.initial; repeated = t.repeated })
          (unfold note_initial in refl) (h write))
    | inr read ↦ rw (process_read log d read) t
  ]

  -- The counters keep to the modified keys through any log in which each key has one kind.
  pub apply-IsTallied :
      (logs : List StorageLogQuery) (d : StorageWritesDeduplicator)
      → All (HasKind kind) logs
      → IsTallied kind d
      → IsTallied kind (apply logs d)
  unfolding apply process_storage_logs
  apply-IsTallied [] d h t = t
  apply-IsTallied (log ∷ logs) d h t =
      apply-IsTallied logs (process_if_write log d).0 h.1 (process_if_write-IsTallied log d h.0 t)

pub new-IsTallied : (kind : StorageKey → Bool) → IsTallied kind new
unfolding new count
new-IsTallied kind = record { initial = refl; repeated = refl }

-- On an empty state the two metrics are the numbers of modified keys of either kind (modulo the
-- word size), if the log reports one kind for each key. No counter has wrapped below zero.
pub apply_on_empty_state_counts :
    (kind : StorageKey → Bool) (logs : List StorageLogQuery)
    → All (HasKind kind) logs
    → let m = apply_on_empty_state logs in
      let keys = (apply logs new).modified_keys in
      (m.initial_storage_writes ≡ count kind keys % u64_mod)
      × (m.repeated_storage_writes ≡ count (λ k. not (kind k)) keys % u64_mod)
unfolding apply_on_empty_state
apply_on_empty_state_counts kind logs h =
    let t = apply-IsTallied kind logs new h (new-IsTallied kind) in (t.initial, t.repeated)
