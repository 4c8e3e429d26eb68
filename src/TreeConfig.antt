-- ===== src/TreeConfig.antt =====
-- The empty tree that the merkle tree's configuration holds (merkle_tree/src/tree_config.rs, with
-- the nodes of types/src/merkle_tree.rs). The hasher is a parameter, with the two kinds of hash.
pub mod EmptyTree
mod Tests
use ola_os.Base.{
  Outcome, returns, panics, ℕ, zero, suc, ◌+◌, Option, none, some, List, [], ◌∷◌, ◌++◌, ◌==◌,
  if◌then◌else◌,
}
use ola_os.Types.Tree.{TreeKey}

pub data NodeEntry : Type 0 where
  branch : (hash left_hash right_hash : TreeKey) → NodeEntry
  leaf : (hash : TreeKey) → NodeEntry

unfoldable pub into_hash : NodeEntry → TreeKey
into_hash (branch hash left_hash right_hash) = hash
into_hash (leaf hash) = hash

-- Four zero elements.
abbrev pub tree_key_default : TreeKey
tree_key_default = 0 ∷ 0 ∷ 0 ∷ 0 ∷ []

abbrev pub reverse : {A : Type 0} → List A → List A
reverse [] = []
reverse (a ∷ items) = reverse items ++ a ∷ []

-- A hash with the one before it.
abbrev pub make_node : Option TreeKey → TreeKey → NodeEntry
make_node none hash = leaf hash
make_node (some prev_hash) hash = branch hash prev_hash prev_hash

abbrev pub zip_nodes : Option TreeKey → List TreeKey → List NodeEntry
zip_nodes prev_hash [] = []
zip_nodes prev_hash (hash ∷ hashes) = make_node prev_hash hash ∷ zip_nodes (some hash) hashes

unfoldable pub calc_empty_tree : List TreeKey → List NodeEntry
calc_empty_tree hashes = reverse (zip_nodes none (reverse hashes))

abbrev pub map_option : {A B : Type 0} → (A → B) → Option A → Option B
map_option f none = none
map_option f (some a) = some (f a)

-- The first node's hash.
unfoldable pub default_root_hash : List NodeEntry → Outcome TreeKey
unfolding into_hash
default_root_hash [] = panics
default_root_hash (node ∷ nodes) = returns (into_hash node)

module _ {Kind : Type 0} (leaf_kind branch_kind : Kind)
    (compress : TreeKey → TreeKey → Kind → TreeKey) where
  abbrev pub kind_at : ℕ → Kind
  kind_at index = if index == 0 then leaf_kind else branch_kind

  -- The loop of `calc_default_hashes`, for the indices that are left. The last hash stands first,
  -- as it does after the reversal.
  unfoldable pub hash_levels : ℕ → ℕ → List TreeKey → Option (List TreeKey)
  hash_levels zero index hashes = some hashes
  hash_levels (suc left) index [] = none
  hash_levels (suc left) index (last_hash ∷ hashes) =
      hash_levels left (index + 1)
        (compress last_hash last_hash (kind_at index) ∷ last_hash ∷ hashes)

  unfoldable pub calc_default_hashes : ℕ → Option (List TreeKey)
  unfolding hash_levels
  calc_default_hashes depth = hash_levels depth 0 (tree_key_default ∷ [])

  -- `TreeConfig::new` for a depth.
  unfoldable pub empty_tree : ℕ → Option (List NodeEntry)
  unfolding calc_default_hashes calc_empty_tree
  empty_tree depth = map_option calc_empty_tree (calc_default_hashes depth)
