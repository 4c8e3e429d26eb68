-- ===== src/Types/Tree.antt =====
-- The data of the merkle tree (types/src/merkle_tree.rs, types/src/storage/writes.rs). A tree key is
-- the list of its four field elements.
use ola_os.Base.{ℕ, ◌+◌, ◌*◌, ◌%◌, ◌^◌, List, [], ◌∷◌, ◌++◌}
use ola_os.Base.Map.{Map}
use ola_os.Convert.{to_be_bytes}

abbrev pub Bytes : Type 0
Bytes = List ℕ

abbrev pub TreeKey : Type 0
TreeKey = List ℕ

pub data TreeOperation : Type 0 where
  write : (value previous_value : TreeKey) → TreeOperation
  read : (value : TreeKey) → TreeOperation
  delete : TreeOperation

pub record InitialStorageWrite : Type 0 where
  pub index : ℕ
  pub key : ℕ
  pub value : Bytes

pub record RepeatedStorageWrite : Type 0 where
  pub index : ℕ
  pub value : Bytes

pub record LeafIndices : Type 0 where
  pub leaf_indices : Map TreeKey ℕ
  pub last_index : ℕ
  pub previous_index : ℕ
  pub initial_writes : List InitialStorageWrite
  pub repeated_writes : List RepeatedStorageWrite

-- A node's level and its place on the level.
abbrev pub LevelIndex : Type 0
LevelIndex = ℕ × ℕ

-- The elements of a tree key, of 64 bits each, as one number.
unfoldable pub fold_key : ℕ → TreeKey → ℕ
fold_key acc [] = acc
fold_key acc (item ∷ items) = fold_key ((acc * 2 ^ 64 + item) % 2 ^ 256) items

unfoldable pub tree_key_to_u256 : TreeKey → ℕ
unfolding fold_key
tree_key_to_u256 value = fold_key 0 value

unfoldable pub tree_key_to_u8_arr : TreeKey → Bytes
tree_key_to_u8_arr [] = []
tree_key_to_u8_arr (item ∷ items) = to_be_bytes 8 item ++ tree_key_to_u8_arr items

unfoldable pub tree_value_to_h256 : TreeKey → Bytes
unfolding tree_key_to_u8_arr
tree_value_to_h256 value = tree_key_to_u8_arr value
