-- ===== src/SortStorage/Tests.antt =====
-- A slot that is written and rolled back, and one that is written for good.
use ola_os.Base.{ℕ, ◌≡◌, refl, Bool, true, false, [], ◌∷◌, returns, panics}
use ola_os.Types.Log.{LogQuery}
use ola_os.SortStorage.{
  ExtendedQuery, deduplicate_slot, create_partially_filled_from_fields, sort_storage_access_queries,
  note_read, note_first, undo_change, track, keep, keep_all, conclude, same_slot, join_group,
  by_slot, deduplicate_slots, enumerate,
}
use ola_os.SortStorage.Slot.{
  Cell, done, read, write, undo, net_query, reads_at_zero, deduplicate_slot-Cell,
}

abbrev query : ℕ → ℕ → ℕ → Bool → Bool → LogQuery
query slot old new rw back = record {
  timestamp = 0;
  tx_number_in_block = 0;
  aux_byte = 0;
  shard_id = 0;
  address = 6;
  key = slot;
  read_value = old;
  written_value = new;
  rw_flag = rw;
  rollback = back;
  is_service = false;
}

abbrev extended : ℕ → LogQuery → ExtendedQuery
extended i q = record { raw_query = q; extended_timestamp = i }

abbrev first_write : ExtendedQuery
first_write = extended 0 (query 3 10 11 true false)

abbrev first_undo : ExtendedQuery
first_undo = extended 1 (query 3 10 11 true true)

abbrev later_read : ExtendedQuery
later_read = extended 2 (query 3 10 10 false false)

history : Cell 0 6 3 10 [] (first_write ∷ first_undo ∷ later_read ∷ []) 10 []
history =
    write first_write 10 10 [] [] (first_undo ∷ later_read ∷ []) (refl, refl, refl) refl refl refl
      (undo first_undo first_write 11 10 [] [] (later_read ∷ []) (refl, refl, refl) refl refl refl
        refl (read later_read 10 10 [] [] [] (refl, refl, refl) refl refl (done 10 [])))

deduplicate_slot-Cell_example :
    deduplicate_slot (first_write ∷ first_undo ∷ later_read ∷ [])
    ≡ returns
        (net_query 0 6 3 10 10 [] (reads_at_zero 0 (first_write ∷ first_undo ∷ later_read ∷ [])))
deduplicate_slot-Cell_example =
    deduplicate_slot-Cell 0 6 3 first_write (first_undo ∷ later_read ∷ []) [] 10 history

-- The queries stand sorted, so the sort has nothing to do.
two_slots :
    sort_storage_access_queries
      (λ es. es)
      (query 3 10 11 true false ∷ query 3 10 11 true true ∷ query 4 1 2 true false ∷ [])
    ≡ returns (
      first_write ∷ first_undo ∷ extended 2 (query 4 1 2 true false) ∷ [],
      create_partially_filled_from_fields 0 6 4 1 2 true ∷ [],
    )
unfolding sort_storage_access_queries deduplicate_slots by_slot join_group same_slot enumerate
    deduplicate_slot keep_all keep note_read note_first track undo_change conclude
    create_partially_filled_from_fields
two_slots = refl

-- A read that does not see the current value fails the assertion.
stale_read : deduplicate_slot (first_write ∷ later_read ∷ []) ≡ panics
unfolding deduplicate_slot keep_all keep note_read note_first track undo_change
stale_read = refl
