-- ===== src/TreeStorage/Kept.antt =====
-- The numbering of leaves from one saved state to the next (merkle_tree/src/storage.rs).
use ola_os.Base.{ℕ, ◌+◌, ◌^◌, ◌<◌, ◌≡◌, ap, ◌∙◌, some, List, [], All, returns, ◌>>=◌, length, arith}
use ola_os.Base.Map.{Map, lookup, insert}
use ola_os.Base.Map.Laws.{lookup-insert_self, lookup-insert_ne}
use ola_os.Base.Order.{list_ord}
use ola_os.Convert.{serialize_tree_leaf, serialize_leaf_index, serialize_block_number}
use ola_os.Types.Tree.{Bytes, TreeKey, TreeOperation, LeafIndices, LevelIndex}
use ola_os.TreeStorage.{
  leaf_index_key, Storage, Walk, index_blocks, group_by, process_leaf_indices, pre_save, put_all,
  save, saved,
}
use ola_os.TreeStorage.Numbered.{column, or_else, leaf_ne, Numbered-agree, lookup-put_all}
use ola_os.TreeStorage.Walks.{Walks, Holds}
use ola_os.TreeStorage.Walked.{
  IsLog, total, Numbered-ReadsAll, total-group_by, group_by-AllKept, index_blocks-Goes,
}
use ola_os.TreeStorage.Pending.{
  IsNumbered, IsPending, IsOther, save-saved, save-IsNumbered, pre_save-IsPending,
}

-- The walk that the processing of the logs starts with.
abbrev starting : ℕ → Storage → Walk
starting n s = record {
  current_index = n;
  put_batch = s.put_pending_patch;
  delete_batch = s.delete_pending_patch;
  new_writes = [];
  initial_writes = [];
  repeated_writes = [];
}

start-Walks :
    (Leaf : TreeKey → Type 0) (n room : ℕ) (s : Storage)
    → IsNumbered Leaf n s
    → n + room < 2 ^ 64
    → Walks Leaf s.db room (starting n s)
unfolding Holds
start-Walks Leaf n room s h fits = record {
  numbered =
      Numbered-agree Leaf n (λ k. lookup k s.db) (column s.put_pending_patch s.db)
        (λ leaf l. h.written (serialize_tree_leaf leaf)) h.numbered;
  fits = fits;
  keeps = h.no_delete;
  old = λ leaf bytes l e. h.written (serialize_tree_leaf leaf) ∙ e;
}

-- The counter is no leaf.
column-counter :
    (puts db : Map Bytes Bytes) (value : Bytes) (leaf : TreeKey)
    → column (insert leaf_index_key value puts) db (serialize_tree_leaf leaf)
      ≡ column puts db (serialize_tree_leaf leaf)
column-counter puts db value leaf =
    ap (λ o. or_else o (lookup (serialize_tree_leaf leaf) db))
      (lookup-insert_ne (serialize_tree_leaf leaf) leaf_index_key value puts (leaf_ne leaf))

-- The state that the processing leaves, from the walk's end.
abbrev ending : Walk → Storage → Storage
ending w s = record s {
  put_pending_patch = insert leaf_index_key (serialize_leaf_index w.current_index) w.put_batch;
  delete_pending_patch = w.delete_batch;
}

ending-IsPending :
    (Leaf : TreeKey → Type 0) (w : Walk) (s : Storage)
    → Walks Leaf s.db 0 w
    → IsPending Leaf w.current_index (ending w s) s.db
unfolding Holds
ending-IsPending Leaf w s h =
    let value = serialize_leaf_index w.current_index in
    record {
      counter = lookup-insert_self leaf_index_key value w.put_batch;
      small = omega (arith, h.fits);
      numbered =
          Numbered-agree Leaf w.current_index (column w.put_batch s.db)
            (column (insert leaf_index_key value w.put_batch) s.db)
            (λ leaf l. column-counter w.put_batch s.db value leaf) h.numbered;
      no_delete = h.keeps;
      holds = λ leaf bytes l e. column-counter w.put_batch s.db value leaf ∙ h.old leaf bytes l e;
    }

process-IsPending :
    (Leaf : TreeKey → Type 0) (n : ℕ) (s : Storage)
    (storage_logs : List (ℕ × TreeKey × TreeOperation))
    → IsNumbered Leaf n s
    → All (λ l. IsLog Leaf (l.1, l.2)) storage_logs
    → n + length storage_logs < 2 ^ 64
    → (found : List LeafIndices) × (w : Walk) × (process_leaf_indices s storage_logs
        ≡ returns (found, ending w s))
      × IsPending Leaf w.current_index (ending w s) s.db
unfolding process_leaf_indices
process-IsPending Leaf n s storage_logs h kept fits =
    let room : n + total (group_by storage_logs) < 2 ^ 64 =
      omega (arith, total-group_by storage_logs) in
    let (found, w, e, walks) =
      index_blocks-Goes Leaf s.db (group_by storage_logs) (starting n s)
        (Numbered-ReadsAll Leaf n s.db (omega arith) h.numbered)
        (group_by-AllKept Leaf storage_logs kept)
        (start-Walks Leaf n (total (group_by storage_logs)) s h room) in
    (
      found,
      w,
      ap
            (λ m. m >>= λ i. index_blocks s.db (group_by storage_logs) (starting i s) >>= λ r.
              returns (r.0, ending r.1 s))
            h.counter
          ∙ ap (λ m. m >>= λ r. returns (r.0, ending r.1 s)) e,
      ending-IsPending Leaf w s walks,
    )

-- The database holds for each leaf that occurs what it held.
abbrev pub Keeps : (TreeKey → Type 0) → Storage → Storage → Type 0
Keeps Leaf s t =
    (leaf : TreeKey) (bytes : Bytes)
    → Leaf leaf
    → lookup (serialize_tree_leaf leaf) s.db ≡ some bytes
    → lookup (serialize_tree_leaf leaf) t.db ≡ some bytes

-- Of the leaves that occur: if no pending change is unwritten and the leaves in the database have
-- distinct indices below its counter, then a batch of logs of such leaves without a revert, for
-- which the counter has room in 64 bits, is processed without a panic; once branches whose keys are
-- none of such a leaf and not the counter's are added and all is saved, the leaves again have
-- distinct indices below the counter, and every leaf that had an index has the same one.
pub save-process_leaf_indices :
    (Leaf : TreeKey → Type 0) (bin_key : LevelIndex → Bytes) (n block : ℕ) (s : Storage)
    (storage_logs : List (ℕ × TreeKey × TreeOperation)) (branches : List (LevelIndex × TreeKey))
    → IsNumbered Leaf n s
    → All (λ l. IsLog Leaf (l.1, l.2)) storage_logs
    → n + length storage_logs < 2 ^ 64
    → All (λ b. IsOther Leaf (bin_key b.0)) branches
    → (found : List LeafIndices) × (pending : Storage) × (t : Storage) × (m : ℕ)
      × (process_leaf_indices s storage_logs ≡ returns (found, pending))
      × (save block (pre_save bin_key branches pending) ≡ saved t)
      × IsNumbered Leaf m t
      × Keeps Leaf s t
unfolding Holds
save-process_leaf_indices Leaf bin_key n block s storage_logs branches h kept fits others =
    let (found, w, e, pending) = process-IsPending Leaf n s storage_logs h kept fits in
    let p = pre_save bin_key branches (ending w s) in
    let ready =
      pre_save-IsPending Leaf bin_key branches w.current_index (ending w s) s.db others pending in
    (
      found,
      ending w s,
      record p {
        db = put_all p.put_pending_patch p.db;
        block_number = some (serialize_block_number block);
      },
      w.current_index,
      e,
      save-saved block p w.current_index ready.counter ready.no_delete,
      save-IsNumbered Leaf w.current_index p s.db block ready,
      λ leaf bytes l k.
          lookup-put_all p.put_pending_patch p.db (serialize_tree_leaf leaf)
          ∙ ready.holds leaf bytes l k,
    )
