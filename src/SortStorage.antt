-- ===== src/SortStorage.antt =====
-- The storage accesses of a batch reduced to one query for each slot
-- (ola_core/src/sequencer/io/sort_storage_access.rs), for `LogQuery`, the one implementation of
-- `LogQueryLike`. The parallel sort of the `rayon` crate is a parameter.
pub mod Slot
mod Tests
use ola_os.Base.{
  ℕ, ◌+◌, ◌%◌, Bool, true, false, not, ◌&&◌, Option, none, some, List, [], ◌∷◌, ◌++◌, Outcome,
  returns, panics, assert, expect, ◌>>=◌, ◌>>◌, ◌==◌, is_some, is_empty, if◌then◌else◌,
}
use Prim.Native.Nat.{compare, Ordering}
use ola_os.Base.Order.{and_then}
use ola_os.Base.Words.{u32_mod}
use ola_os.Types.Log.{LogQuery}

-- `LogQueryLikeWithExtendedEnumeration`
pub record ExtendedQuery : Type 0 where
  pub raw_query : LogQuery
  pub extended_timestamp : ℕ

-- The stack has its top in front.
pub record StorageSlotHistoryKeeper : Type 0 where
  pub initial_value : Option ℕ
  pub current_value : Option ℕ
  pub changes_stack : List ExtendedQuery
  pub did_read_at_depth_zero : Bool

abbrev pub default_keeper : StorageSlotHistoryKeeper
default_keeper = record {
  initial_value = none;
  current_value = none;
  changes_stack = [];
  did_read_at_depth_zero = false;
}

unfoldable pub create_partially_filled_from_fields : ℕ → ℕ → ℕ → ℕ → ℕ → Bool → LogQuery
create_partially_filled_from_fields shard_id address key read_value written_value rw_flag = record {
  timestamp = 0;
  tx_number_in_block = 0;
  aux_byte = 0;
  shard_id = shard_id;
  address = address;
  key = key;
  read_value = read_value;
  written_value = written_value;
  rw_flag = rw_flag;
  rollback = false;
  is_service = false;
}

-- The first part of a round: a read that no change of the slot is in force for.
unfoldable pub note_read : LogQuery → StorageSlotHistoryKeeper → Outcome StorageSlotHistoryKeeper
note_read q k =
    if is_some k.current_value
    then returns (record k {
      did_read_at_depth_zero =
          if not q.rw_flag && is_empty k.changes_stack then true else k.did_read_at_depth_zero;
    })
    else do
      assert (not (is_some k.initial_value))
      returns (record k {
        did_read_at_depth_zero = if q.rw_flag then k.did_read_at_depth_zero else true;
      })

-- The second part: the first query has the initial value.
unfoldable pub note_first : LogQuery → StorageSlotHistoryKeeper → Outcome StorageSlotHistoryKeeper
note_first q k = if is_some k.current_value then returns k else do
  assert (not (is_some k.initial_value))
  assert (if q.rw_flag then not q.rollback else true)
  returns (record k { initial_value = some q.read_value; current_value = some q.read_value })

-- `changes_stack.pop()`
abbrev pub pop : List ExtendedQuery → Option (ExtendedQuery × List ExtendedQuery)
pop [] = none
pop (e ∷ es) = some (e, es)

-- A rollback takes the last change back, which it has to repeat.
unfoldable pub undo_change : LogQuery → StorageSlotHistoryKeeper → Outcome StorageSlotHistoryKeeper
undo_change q k = do
  (popped, stack) ← expect (pop k.changes_stack)
  assert (q.read_value == popped.raw_query.read_value)
  assert (q.written_value == popped.raw_query.written_value)
  current ← expect k.current_value
  assert (q.written_value == current)
  assert (q.shard_id == popped.raw_query.shard_id)
  assert (q.address == popped.raw_query.address)
  assert (q.key == popped.raw_query.key)
  returns (record k { changes_stack = stack; current_value = some q.read_value })

-- The third part: a read finds the current value, a write pushes a change, a rollback pops one.
unfoldable pub track : ExtendedQuery → StorageSlotHistoryKeeper → Outcome StorageSlotHistoryKeeper
unfolding undo_change
track e k =
    if not e.raw_query.rw_flag
    then (do
      current ← expect k.current_value
      assert (e.raw_query.read_value == current)
      returns k)
    else if not e.raw_query.rollback
    then (do
      current ← expect k.current_value
      assert (e.raw_query.read_value == current)
      returns (record k {
        current_value = some e.raw_query.written_value;
        changes_stack = e ∷ k.changes_stack;
      }))
    else undo_change e.raw_query k

unfoldable pub keep : ExtendedQuery → StorageSlotHistoryKeeper → Outcome StorageSlotHistoryKeeper
unfolding note_read note_first track
keep e k = do k' ← note_read e.raw_query k; k'' ← note_first e.raw_query k'; track e k''

unfoldable pub keep_all :
    List ExtendedQuery → StorageSlotHistoryKeeper → Outcome StorageSlotHistoryKeeper
keep_all [] k = returns k
keep_all (e ∷ es) k = do k' ← keep e k; keep_all es k'

-- What the history of the candidate's slot comes to: nothing, a protective read or a net write.
unfoldable pub conclude : LogQuery → StorageSlotHistoryKeeper → Outcome (List LogQuery)
unfolding create_partially_filled_from_fields
conclude candidate k = do
  initial ← expect k.initial_value
  current ← expect k.current_value
  let query =
      create_partially_filled_from_fields candidate.shard_id candidate.address candidate.key initial
        current
  if not k.did_read_at_depth_zero && is_empty k.changes_stack
      then (assert (initial == current) >> returns [])
      else if initial == current
      then returns (
          if k.did_read_at_depth_zero
          then query false ∷ []
          else if not (is_empty k.changes_stack)
          then query false ∷ []
          else [])
      else returns (query true ∷ [])

-- One round of the outer loop, on the queries of one slot.
unfoldable pub deduplicate_slot : List ExtendedQuery → Outcome (List LogQuery)
unfolding keep_all conclude
deduplicate_slot [] = returns []
deduplicate_slot (e ∷ es) = do k ← keep_all (e ∷ es) default_keeper; conclude e.raw_query k

unfoldable pub same_slot : LogQuery → LogQuery → Bool
same_slot a b = a.shard_id == b.shard_id && a.address == b.address && a.key == b.key

-- An element joins the first group if that is of its slot.
unfoldable pub join_group : ExtendedQuery → List (List ExtendedQuery) → List (List ExtendedQuery)
join_group e [] = (e ∷ []) ∷ []
join_group e ([] ∷ gs) = (e ∷ []) ∷ gs
join_group e ((f ∷ fs) ∷ gs) =
    if same_slot e.raw_query f.raw_query then (e ∷ f ∷ fs) ∷ gs else (e ∷ []) ∷ (f ∷ fs) ∷ gs

-- `take_while` from each candidate on cuts a list into the runs of equal slots.
unfoldable pub by_slot : List ExtendedQuery → List (List ExtendedQuery)
unfolding join_group
by_slot [] = []
by_slot (e ∷ es) = join_group e (by_slot es)

unfoldable pub deduplicate_slots : List (List ExtendedQuery) → Outcome (List LogQuery)
unfolding deduplicate_slot
deduplicate_slots [] = returns []
deduplicate_slots (g ∷ gs) = do
  queries ← deduplicate_slot g
  rest ← deduplicate_slots gs
  returns (queries ++ rest)

unfoldable pub enumerate : ℕ → List LogQuery → List ExtendedQuery
enumerate i [] = []
enumerate i (q ∷ qs) =
    record { raw_query = q; extended_timestamp = i % u32_mod } ∷ enumerate (i + 1) qs

-- The order that the sort goes by.
abbrev pub cmp_queries : ExtendedQuery → ExtendedQuery → Ordering
cmp_queries a b = and_then (compare a.raw_query.shard_id b.raw_query.shard_id) (
    and_then (compare a.raw_query.address b.raw_query.address) (
      and_then (compare a.raw_query.key b.raw_query.key)
        (compare a.extended_timestamp b.extended_timestamp)))

unfoldable pub sort_storage_access_queries :
    (List ExtendedQuery → List ExtendedQuery)
    → List LogQuery
    → Outcome (List ExtendedQuery × List LogQuery)
unfolding deduplicate_slots by_slot enumerate
sort_storage_access_queries par_sort queries = do
  let sorted = par_sort (enumerate 0 queries)
  deduplicated ← deduplicate_slots (by_slot sorted)
  returns (sorted, deduplicated)
