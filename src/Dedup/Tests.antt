-- ===== src/Dedup/Tests.antt =====
-- Witnesses and runs of the deduplicator.
use ola_os.Base.{ℕ, ◌%◌, ◌≡◌, refl, true, false, not, Bool, List, [], ◌∷◌, All, ◌==◌}
use ola_os.Base.Map
use ola_os.Base.Map.{contains, remove}
use ola_os.Base.Map.Count.{count}
use ola_os.Base.Words.{u64_mod, wrapping_add64, wrapping_sub64}
use ola_os.Types.Log.{
  StorageLogQuery, StorageLogQueryType, StorageKey, storage_key_ord, initial_write, repeated_write,
  key_of, is_initial_write,
}
use ola_os.Dedup.{
  StorageWritesDeduplicator, new, apply, apply_and_rollback, apply_on_empty_state,
  process_storage_logs, process_if_write, update_key, note_initial, is_key_modified, take_out,
  put_in,
}
use ola_os.Dedup.Rollback.{new-IsValid, apply-IsValid, apply_and_rollback_lem}
use ola_os.Dedup.Final.{first_read, last_value, differs, net_writes}
use ola_os.Dedup.Metrics.{HasKind, apply_on_empty_state_counts}

abbrev write : StorageLogQueryType → ℕ → ℕ → ℕ → StorageLogQuery
write kind key old value = record {
  log_query = record {
    timestamp = 0;
    tx_number_in_block = 0;
    aux_byte = 0;
    shard_id = 0;
    address = 1;
    key = key;
    read_value = old;
    written_value = value;
    rw_flag = true;
    rollback = false;
    is_service = false;
  };
  log_type = kind;
}

-- Key 3 is written and restored, keys 4 and 5 are changed.
abbrev logs : List StorageLogQuery
logs =
    write initial_write 3 0 7
    ∷ write repeated_write 4 1 2
    ∷ write initial_write 3 7 0
    ∷ write initial_write 5 0 9
    ∷ []

abbrev kind : StorageKey → Bool
kind k = not (k.key == 4)

abbrev started : StorageWritesDeduplicator
started = apply logs new

apply_and_rollback_lem_example :
    let (d', m) = apply_and_rollback (write initial_write 5 9 0 ∷ []) started in
    (d'.modified_keys ≡ started.modified_keys)
    × (d'.metrics ≡ started.metrics)
    × (m ≡ (apply (write initial_write 5 9 0 ∷ []) started).metrics)
apply_and_rollback_lem_example =
    apply_and_rollback_lem (write initial_write 5 9 0 ∷ []) started
      (apply-IsValid logs new new-IsValid)

net_writes_example :
    contains (record { account = 1; key = 3 }) (apply logs new).modified_keys
    ≡ differs
        (first_read (record { account = 1; key = 3 }) logs)
        (last_value (record { account = 1; key = 3 }) logs)
net_writes_example = net_writes (record { account = 1; key = 3 }) logs

apply_on_empty_state_counts_example :
    let m = apply_on_empty_state logs in
    let keys = (apply logs new).modified_keys in
    (m.initial_storage_writes ≡ count kind keys % u64_mod)
    × (m.repeated_storage_writes ≡ count (λ k. not (kind k)) keys % u64_mod)
apply_on_empty_state_counts_example = apply_on_empty_state_counts kind logs logs-HasKind
  where
    logs-HasKind : All (HasKind kind) logs
    logs-HasKind =
        unfold is_initial_write key_of in
        ((λ h. refl), ((λ h. refl), ((λ h. refl), ((λ h. refl), tt))))

logs_run :
    apply_on_empty_state logs ≡ record { initial_storage_writes = 1; repeated_storage_writes = 1 }
unfolding apply_on_empty_state apply new process_storage_logs process_if_write update_key
    note_initial is_key_modified take_out put_in Map.lookup Map.insert remove Map.add contains
    key_of is_initial_write wrapping_add64 wrapping_sub64
logs_run = refl
