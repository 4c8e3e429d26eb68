-- ===== src/TreeStorage/Pending.antt =====
-- What processing leaves pending, and that saving writes it (merkle_tree/src/storage.rs).
use ola_os.Base.{
  ℕ, ◌^◌, ◌<◌, ◌≡◌, ◌≢◌, refl, sym, ap, ◌∙◌, ◌&&◌, if◌then◌else◌, false, Option, none, some, List,
  [], ◌∷◌, All, returns,
}
use ola_os.Base.Map.{Map, lookup, insert}
use ola_os.Base.Map.Laws.{lookup-insert_ne}
use ola_os.Base.Order.{list_ord}
use ola_os.Convert.{serialize_tree_leaf, serialize_leaf_index, serialize_block_number}
use ola_os.Types.Tree.{Bytes, TreeKey, LevelIndex, tree_key_to_u8_arr}
use ola_os.TreeStorage.{
  leaf_index_key, Storage, next_index, pre_save, put_all, delete_all, save, saved, empty_patch,
  is_empty,
}
use ola_os.TreeStorage.Numbered.{
  column, or_else, Numbered, deserialize-serialize_index, Numbered-agree, lookup-put_all,
}
use ola_os.TreeStorage.Walks.{Holds}

-- The database's leaves have distinct indices below its counter, and what is pending is written.
pub record IsNumbered (Leaf : TreeKey → Type 0) (n : ℕ) (s : Storage) : Type 0 where
  pub counter : next_index (lookup leaf_index_key s.db) ≡ returns n
  pub numbered : Numbered Leaf n (λ k. lookup k s.db)
  pub written : (k : Bytes) → column s.put_pending_patch s.db k ≡ lookup k s.db
  pub no_delete : s.delete_pending_patch ≡ []

-- What processing leaves pending.
pub record IsPending (Leaf : TreeKey → Type 0) (n : ℕ) (s : Storage) (old : Map Bytes Bytes)
    : Type 0 where
  pub counter : lookup leaf_index_key s.put_pending_patch ≡ some (serialize_leaf_index n)
  pub small : n < 2 ^ 64
  pub numbered : Numbered Leaf n (column s.put_pending_patch s.db)
  pub no_delete : s.delete_pending_patch ≡ []
  pub holds : Holds Leaf old (column s.put_pending_patch s.db)

nonempty : (m : Map Bytes Bytes) (k v : Bytes) → lookup k m ≡ some v → is_empty m ≡ false
unfolding lookup
nonempty [] k v h = cc
nonempty (e ∷ m) k v h = refl

-- Saving writes all that is pending.
pub save-saved :
    (block : ℕ) (s : Storage) (n : ℕ)
    → lookup leaf_index_key s.put_pending_patch ≡ some (serialize_leaf_index n)
    → s.delete_pending_patch ≡ []
    → save block s
      ≡ saved (record s {
        db = put_all s.put_pending_patch s.db;
        block_number = some (serialize_block_number block);
      })
unfolding save delete_all
save-saved block s n h e =
    ap
      (λ b.
        if b && is_empty s.delete_pending_patch
        then empty_patch
        else saved (record s {
          db = delete_all s.delete_pending_patch (put_all s.put_pending_patch s.db);
          block_number = some (serialize_block_number block);
        }))
      (nonempty s.put_pending_patch leaf_index_key (serialize_leaf_index n) h)
    ∙ ap
        (λ d. saved (record s {
          db = delete_all d (put_all s.put_pending_patch s.db);
          block_number = some (serialize_block_number block);
        }))
        e

by_lookup : (new old now : Option Bytes) → now ≡ or_else new old → or_else new now ≡ now
by_lookup none old now e = refl
by_lookup (some v) old now e = sym e

-- What was pending is written, and written once more it changes nothing.
written_again :
    (puts db : Map Bytes Bytes) (k : Bytes)
    → column puts (put_all puts db) k ≡ lookup k (put_all puts db)
written_again puts db k =
    let e = lookup-put_all puts db k in
    by_lookup (lookup k puts) (lookup k db) (lookup k (put_all puts db)) e

pub save-IsNumbered :
    (Leaf : TreeKey → Type 0) (n : ℕ) (s : Storage) (old : Map Bytes Bytes) (block : ℕ)
    → IsPending Leaf n s old
    → IsNumbered Leaf n (record s {
      db = put_all s.put_pending_patch s.db;
      block_number = some (serialize_block_number block);
    })
unfolding next_index
save-IsNumbered Leaf n s old block h = record {
  counter =
      ap next_index (
        lookup-put_all s.put_pending_patch s.db leaf_index_key
        ∙ ap (λ o. or_else o (lookup leaf_index_key s.db)) h.counter)
      ∙ deserialize-serialize_index n h.small;
  numbered =
      Numbered-agree Leaf n (column s.put_pending_patch s.db)
        (λ k. lookup k (put_all s.put_pending_patch s.db))
        (λ leaf l. lookup-put_all s.put_pending_patch s.db (serialize_tree_leaf leaf)) h.numbered;
  written = written_again s.put_pending_patch s.db;
  no_delete = h.no_delete;
}

-- A key that is neither the counter's nor that of a leaf that occurs.
abbrev pub IsOther : (TreeKey → Type 0) → Bytes → Type 0
IsOther Leaf k =
    (leaf_index_key ≢ k) × ((leaf : TreeKey) → Leaf leaf → serialize_tree_leaf leaf ≢ k)

put-IsPending :
    (Leaf : TreeKey → Type 0) (n : ℕ) (s : Storage) (old : Map Bytes Bytes) (k value : Bytes)
    → IsOther Leaf k
    → IsPending Leaf n s old
    → IsPending Leaf n (record s { put_pending_patch = insert k value s.put_pending_patch }) old
unfolding Holds
put-IsPending Leaf n s old k value (no_counter, no_leaf) h =
    let same_leaf : (leaf : TreeKey)
        → Leaf leaf
        → column (insert k value s.put_pending_patch) s.db (serialize_tree_leaf leaf)
          ≡ column s.put_pending_patch s.db (serialize_tree_leaf leaf) =
      λ leaf l.
        ap (λ o. or_else o (lookup (serialize_tree_leaf leaf) s.db))
          (lookup-insert_ne (serialize_tree_leaf leaf) k value s.put_pending_patch
            (no_leaf leaf l)) in
    record {
      counter = lookup-insert_ne leaf_index_key k value s.put_pending_patch no_counter ∙ h.counter;
      small = h.small;
      numbered =
          Numbered-agree Leaf n (column s.put_pending_patch s.db)
            (column (insert k value s.put_pending_patch) s.db) same_leaf h.numbered;
      no_delete = h.no_delete;
      holds = λ leaf bytes l e. same_leaf leaf l ∙ h.holds leaf bytes l e;
    }

pub pre_save-IsPending :
    (Leaf : TreeKey → Type 0) (bin_key : LevelIndex → Bytes)
    (branches : List (LevelIndex × TreeKey)) (n : ℕ) (s : Storage) (old : Map Bytes Bytes)
    → All (λ b. IsOther Leaf (bin_key b.0)) branches
    → IsPending Leaf n s old
    → IsPending Leaf n (pre_save bin_key branches s) old
unfolding pre_save
pre_save-IsPending Leaf bin_key [] n s old others h = h
pre_save-IsPending Leaf bin_key ((level_index, tree_key) ∷ branches) n s old others h =
    pre_save-IsPending Leaf bin_key branches n
      (record s {
        put_pending_patch =
            insert (bin_key level_index) (tree_key_to_u8_arr tree_key) s.put_pending_patch;
      })
      old others.1
      (put-IsPending Leaf n s old (bin_key level_index) (tree_key_to_u8_arr tree_key) others.0 h)
