-- ===== src/TreeStorage.antt =====
-- The storage of the merkle tree and its numbering of leaves (merkle_tree/src/storage.rs). A
-- database column is the map of what it holds.
pub mod Numbered
pub mod Walks
pub mod Walked
pub mod Pending
pub mod Kept
mod Tests
use ola_os.Base.{
  ℕ, zero, suc, ◌+◌, ◌-◌, ◌*◌, ◌%◌, ◌^◌, Bool, true, false, Option, none, some, List, [], ◌∷◌, ◌++◌,
  Outcome, returns, panics, ◌>>=◌, if◌then◌else◌, ◌==◌, ◌&&◌,
}
use ola_os.Base.Map.{Map, lookup, insert, remove}
use ola_os.Base.Order.{Ord, list_ord}
use ola_os.Types.Tree.{
  Bytes, TreeKey, LevelIndex, TreeOperation, write, read, delete, InitialStorageWrite,
  RepeatedStorageWrite, LeafIndices, tree_key_to_u256, tree_key_to_u8_arr, tree_value_to_h256,
}
use ola_os.Convert.{
  serialize_tree_leaf, serialize_leaf_index, deserialize_leaf_index, serialize_block_number,
  to_be_bytes,
}

-- `b"leaf_index"`
abbrev pub leaf_index_key : Bytes
leaf_index_key = 108 ∷ 101 ∷ 97 ∷ 102 ∷ 95 ∷ 105 ∷ 110 ∷ 100 ∷ 101 ∷ 120 ∷ []

-- The column `LeafIndices`, the block number of the column `Tree`, and the pending changes.
pub record Storage : Type 0 where
  pub db : Map Bytes Bytes
  pub block_number : Option Bytes
  pub put_pending_patch : Map Bytes Bytes
  pub delete_pending_patch : List Bytes

-- What `process_leaf_indices` updates as it goes through the logs.
pub record Walk : Type 0 where
  pub current_index : ℕ
  pub put_batch : Map Bytes Bytes
  pub delete_batch : List Bytes
  pub new_writes : Map TreeKey ℕ
  pub initial_writes : List InitialStorageWrite
  pub repeated_writes : List RepeatedStorageWrite

-- A write to a leaf that has an index.
abbrev pub write_again : ℕ → TreeKey → Walk → Walk
write_again index value w = record w {
  repeated_writes =
      w.repeated_writes ++ record { index = index; value = tree_value_to_h256 value } ∷ [];
}

-- The first write to a leaf.
abbrev pub write_first : TreeKey → TreeKey → Walk → Walk
write_first leaf value w = record w {
  put_batch = insert (serialize_tree_leaf leaf) (serialize_leaf_index w.current_index) w.put_batch;
  initial_writes =
      w.initial_writes
      ++ record {
        index = w.current_index;
        key = tree_key_to_u256 leaf;
        value = tree_value_to_h256 value;
      }
        ∷ [];
  new_writes = insert leaf w.current_index w.new_writes;
  current_index = (w.current_index + 1) % 2 ^ 64;
}

-- A write to a leaf that the database does not know.
unfoldable pub write_unknown : Option ℕ → TreeKey → TreeKey → Walk → ℕ × Walk
write_unknown (some index) leaf value w = (index, write_again index value w)
write_unknown none leaf value w = (w.current_index, write_first leaf value w)

abbrev pub unwrap_or : ℕ → Option ℕ → ℕ
unwrap_or d none = d
unwrap_or d (some n) = n

-- The index of one log's leaf, from what the database knows of it.
unfoldable pub leaf_index : Option Bytes → TreeKey → TreeOperation → Walk → Outcome (ℕ × Walk)
unfolding write_unknown
leaf_index raw_data leaf delete w = returns (
  0,
  record w {
    delete_batch = w.delete_batch ++ serialize_tree_leaf leaf ∷ [];
    current_index = (w.current_index + (2 ^ 64 - 1)) % 2 ^ 64;
  },
)
leaf_index (some bytes) leaf (write value previous_value) w = do
  index ← deserialize_leaf_index bytes
  returns (index, write_again index value w)
leaf_index (some bytes) leaf (read value) w = do
  index ← deserialize_leaf_index bytes
  returns (index, w)
leaf_index none leaf (read value) w = returns (unwrap_or 0 (lookup leaf w.new_writes), w)
leaf_index none leaf (write value previous_value) w =
    returns (write_unknown (lookup leaf w.new_writes) leaf value w)

-- The logs of one block.
unfoldable pub index_block :
    Map Bytes Bytes
    → List (TreeKey × TreeOperation)
    → Map TreeKey ℕ
    → Walk
    → Outcome (Map TreeKey ℕ × Walk)
unfolding leaf_index
index_block db [] indices w = returns (indices, w)
index_block db ((leaf, tree_operation) ∷ logs) indices w = do
  r ← leaf_index (lookup (serialize_tree_leaf leaf) db) leaf tree_operation w
  index_block db logs (insert leaf r.0 indices) r.1

-- The blocks one after the other.
unfoldable pub index_blocks :
    Map Bytes Bytes
    → List (ℕ × List (TreeKey × TreeOperation))
    → Walk
    → Outcome (List LeafIndices × Walk)
unfolding index_block
index_blocks db [] w = returns ([], w)
index_blocks db ((block, group) ∷ groups) w = do
  r ← index_block db group [] (record w { initial_writes = []; repeated_writes = [] })
  rs ← index_blocks db groups r.1
  returns (
    record {
      leaf_indices = r.0;
      last_index = r.1.current_index;
      previous_index = w.current_index;
      initial_writes = r.1.initial_writes;
      repeated_writes = r.1.repeated_writes;
    }
        ∷ rs.0,
    rs.1,
  )

-- `group_by`: neighbours of one block form a group.
abbrev pub join :
    ℕ
    → TreeKey × TreeOperation
    → List (ℕ × List (TreeKey × TreeOperation))
    → List (ℕ × List (TreeKey × TreeOperation))
join block log [] = (block, log ∷ []) ∷ []
join block log ((next, group) ∷ groups) =
    if block == next
    then (block, log ∷ group) ∷ groups
    else (block, log ∷ []) ∷ (next, group) ∷ groups

unfoldable pub group_by :
    List (ℕ × TreeKey × TreeOperation) → List (ℕ × List (TreeKey × TreeOperation))
group_by [] = []
group_by ((block, leaf, tree_operation) ∷ logs) = join block (leaf, tree_operation) (group_by logs)

-- `map(deserialize_leaf_index).unwrap_or(1)`
unfoldable pub next_index : Option Bytes → Outcome ℕ
next_index none = returns 1
next_index (some bytes) = deserialize_leaf_index bytes

unfoldable pub process_leaf_indices :
    Storage → List (ℕ × TreeKey × TreeOperation) → Outcome (List LeafIndices × Storage)
unfolding next_index index_blocks group_by
process_leaf_indices s storage_logs = do
  current_index ← next_index (lookup leaf_index_key s.db)
  r ← index_blocks s.db (group_by storage_logs) (record {
    current_index = current_index;
    put_batch = s.put_pending_patch;
    delete_batch = s.delete_pending_patch;
    new_writes = [];
    initial_writes = [];
    repeated_writes = [];
  })
  returns (
    r.0,
    record s {
      put_pending_patch =
          insert leaf_index_key (serialize_leaf_index r.1.current_index) r.1.put_batch;
      delete_pending_patch = r.1.delete_batch;
    },
  )

-- `bin_key` is the serialisation of the bincode crate. The last of equal entries stays.
unfoldable pub pre_save : (LevelIndex → Bytes) → List (LevelIndex × TreeKey) → Storage → Storage
unfolding tree_key_to_u8_arr
pre_save bin_key [] s = s
pre_save bin_key ((level_index, tree_key) ∷ branches) s = pre_save bin_key branches (record s {
  put_pending_patch =
      insert (bin_key level_index) (tree_key_to_u8_arr tree_key) s.put_pending_patch;
})

-- A write batch of the database.
unfoldable pub put_all : Map Bytes Bytes → Map Bytes Bytes → Map Bytes Bytes
put_all [] db = db
put_all ((key, value) ∷ puts) db = insert key value (put_all puts db)

unfoldable pub delete_all : List Bytes → Map Bytes Bytes → Map Bytes Bytes
delete_all [] db = db
delete_all (key ∷ keys) db = delete_all keys (remove key db)

pub data Saved : Type 0 where
  saved : Storage → Saved
  empty_patch : Saved

abbrev pub is_empty {ℓ} : {A : Type ℓ} → List A → Bool
is_empty [] = true
is_empty (a ∷ items) = false

-- The pending changes stay pending.
unfoldable pub save : ℕ → Storage → Saved
unfolding put_all delete_all
save block_number s =
    if is_empty s.put_pending_patch && is_empty s.delete_pending_patch
    then empty_patch
    else saved (record s {
      db = delete_all s.delete_pending_patch (put_all s.put_pending_patch s.db);
      block_number = some (serialize_block_number block_number);
    })
