-- ===== src/TreeStorage/Walks.antt =====
-- One step of the numbering of leaves (merkle_tree/src/storage.rs).
use ola_os.Base.{
  ℕ, suc, ◌+◌, ◌%◌, ◌^◌, ◌<◌, ◌≡◌, ◌≢◌, refl, sym, ap, ◌∙◌, subst, inl, inr, Option, none, some, [],
  Outcome, returns, arith,
}
use ola_os.Base.Map.{Map, lookup, insert}
use ola_os.Base.Map.Laws.{lookup-insert_ne, cmp-cases}
use ola_os.Base.Order.{list_ord}
use ola_os.Convert.{serialize_tree_leaf, serialize_leaf_index, deserialize_leaf_index}
use ola_os.Types.Tree.{Bytes, TreeKey, TreeOperation, write, read, delete}
use ola_os.TreeStorage.{Walk, write_again, write_unknown, leaf_index}
use ola_os.TreeStorage.Numbered.{column, or_else, Numbered, Numbered-insert}

-- The log is no revert of a leaf's first occurrence.
abbrev pub IsKept : TreeOperation → Type 0
IsKept delete = ⊥
IsKept _ = Unit

none-some : {b : Bytes} → none ≢ some b
none-some e = cc

-- The column holds for each leaf that occurs what the database holds for it.
unfoldable pub Holds : (TreeKey → Type 0) → Map Bytes Bytes → (Bytes → Option Bytes) → Type 0
Holds Leaf db c =
    (leaf : TreeKey) (bytes : Bytes)
    → Leaf leaf
    → lookup (serialize_tree_leaf leaf) db ≡ some bytes
    → c (serialize_tree_leaf leaf) ≡ some bytes

-- A leaf that the database does not know is put.
Holds-insert :
    (Leaf : TreeKey → Type 0) (db puts : Map Bytes Bytes) (new_leaf : TreeKey) (value : Bytes)
    → lookup (serialize_tree_leaf new_leaf) db ≡ none
    → Holds Leaf db (column puts db)
    → Holds Leaf db (column (insert (serialize_tree_leaf new_leaf) value puts) db)
unfolding Holds
Holds-insert Leaf db puts new_leaf value unknown h leaf bytes l e =
    elim (cmp-cases (serialize_tree_leaf leaf) (serialize_tree_leaf new_leaf)) [
      | inl same_key ↦ absurd (none-some (sym unknown ∙ ap (λ k. lookup k db) (sym same_key) ∙ e))
      | inr other ↦
          ap (λ o. or_else o (lookup (serialize_tree_leaf leaf) db))
            (lookup-insert_ne (serialize_tree_leaf leaf) (serialize_tree_leaf new_leaf) value puts
              other)
          ∙ h leaf bytes l e
    ]

-- A walk over a numbered column, whose index and count of logs still fit in 64 bits.
pub record Walks (Leaf : TreeKey → Type 0) (db : Map Bytes Bytes) (room : ℕ) (w : Walk)
    : Type 0 where
  pub numbered : Numbered Leaf w.current_index (column w.put_batch db)
  pub fits : w.current_index + room < 2 ^ 64
  pub keeps : w.delete_batch ≡ []
  pub old : Holds Leaf db (column w.put_batch db)

write_unknown-Walks :
    (Leaf : TreeKey → Type 0) (db : Map Bytes Bytes) (room : ℕ) (known : Option ℕ)
    (leaf value : TreeKey) (w : Walk)
    → lookup (serialize_tree_leaf leaf) db ≡ none
    → Walks Leaf db (suc room) w
    → Walks Leaf db room (write_unknown known leaf value w).1
unfolding write_unknown
write_unknown-Walks Leaf db room (some index) leaf value w unknown h = record {
  numbered = h.numbered;
  fits = omega (arith, h.fits);
  keeps = h.keeps;
  old = h.old;
}
write_unknown-Walks Leaf db room none leaf value w unknown h =
    let next : (w.current_index + 1) % 2 ^ 64 ≡ suc w.current_index = omega (arith, h.fits) in
    record {
      numbered =
          subst
            (λ n. Numbered Leaf n (
              column
                (insert (serialize_tree_leaf leaf) (serialize_leaf_index w.current_index)
                  w.put_batch)
                db))
            (sym next)
            (Numbered-insert Leaf w.current_index w.put_batch db leaf (omega (arith, h.fits))
              h.numbered);
      fits = omega (arith, h.fits, next);
      keeps = h.keeps;
      old =
          Holds-insert Leaf db w.put_batch leaf (serialize_leaf_index w.current_index) unknown
            h.old;
    }

-- What the database holds of a leaf is read back.
unfoldable pub Reads : Option Bytes → Type 0
Reads raw =
    (bytes : Bytes) → raw ≡ some bytes → (i : ℕ) × (deserialize_leaf_index bytes ≡ returns i)

-- A log's index is found, and the walk goes on.
unfoldable pub Goes : (TreeKey → Type 0) → Map Bytes Bytes → ℕ → Outcome (ℕ × Walk) → Type 0
Goes Leaf db room r = (index : ℕ) × (w : Walk) × (r ≡ returns (index, w)) × Walks Leaf db room w

pub leaf_index-Goes :
    (Leaf : TreeKey → Type 0) (db : Map Bytes Bytes) (room : ℕ) (raw : Option Bytes)
    (leaf : TreeKey) (op : TreeOperation) (w : Walk)
    → lookup (serialize_tree_leaf leaf) db ≡ raw
    → Reads raw
    → IsKept op
    → Walks Leaf db (suc room) w
    → Goes Leaf db room (leaf_index raw leaf op w)
unfolding leaf_index Goes Reads
leaf_index-Goes Leaf db room raw leaf delete w found reads kept h = absurd kept
leaf_index-Goes Leaf db room (some bytes) leaf (write value previous_value) w found reads kept h =
    let (i, e) = reads bytes refl in
    (
      i,
      write_again i value w,
      rw e refl,
      record { numbered = h.numbered; fits = omega (arith, h.fits); keeps = h.keeps; old = h.old },
    )
leaf_index-Goes Leaf db room (some bytes) leaf (read value) w found reads kept h =
    let (i, e) = reads bytes refl in
    (
      i,
      w,
      rw e refl,
      record { numbered = h.numbered; fits = omega (arith, h.fits); keeps = h.keeps; old = h.old },
    )
leaf_index-Goes Leaf db room none leaf (read value) w found reads kept h = (
  _,
  w,
  refl,
  record { numbered = h.numbered; fits = omega (arith, h.fits); keeps = h.keeps; old = h.old },
)
leaf_index-Goes Leaf db room none leaf (write value previous_value) w found reads kept h = (
  _,
  (write_unknown (lookup leaf w.new_writes) leaf value w).1,
  refl,
  write_unknown-Walks Leaf db room (lookup leaf w.new_writes) leaf value w found h,
)
