-- ===== src/TreeStorage/Walked.antt =====
-- The numbering of the leaves of a batch of logs (merkle_tree/src/storage.rs).
use ola_os.Base.{
  ℕ, suc, ◌+◌, ◌^◌, ◌<◌, ◌≡◌, refl, ap, ◌∙◌, subst, ◌==◌, if◌then◌else◌, true, false, List, [], ◌∷◌,
  All, returns, ◌>>=◌, length, arith,
}
use ola_os.Base.Map.{Map, lookup, insert}
use ola_os.Base.Order.{list_ord}
use ola_os.Convert.{serialize_tree_leaf, deserialize_leaf_index}
use ola_os.Types.Tree.{Bytes, TreeKey, TreeOperation, LeafIndices}
use ola_os.TreeStorage.{Walk, index_block, index_blocks, join, group_by}
use ola_os.TreeStorage.Numbered.{Bounded, Numbered, deserialize-serialize_index}
use ola_os.TreeStorage.Walks.{IsKept, Walks, Reads, Goes, leaf_index-Goes}

-- A log of a leaf that occurs, which is no revert.
abbrev pub IsLog : (TreeKey → Type 0) → TreeKey × TreeOperation → Type 0
IsLog Leaf l = Leaf l.0 × IsKept l.1

-- The leaves that occur are read back.
pub ReadsAll : (TreeKey → Type 0) → Map Bytes Bytes → Type 0
ReadsAll Leaf db = (leaf : TreeKey) → Leaf leaf → Reads (lookup (serialize_tree_leaf leaf) db)

pub Numbered-ReadsAll :
    (Leaf : TreeKey → Type 0) (n : ℕ) (db : Map Bytes Bytes)
    → n < 2 ^ 64
    → Numbered Leaf n (λ k. lookup k db)
    → ReadsAll Leaf db
unfolding ReadsAll Reads Numbered Bounded
Numbered-ReadsAll Leaf n db small (b, d) leaf l bytes e =
    let (i, same_bytes, below) = b leaf bytes l e in
    (i, ap deserialize_leaf_index same_bytes ∙ deserialize-serialize_index i (omega arith))

index_block-Goes :
    (Leaf : TreeKey → Type 0) (db : Map Bytes Bytes) (room : ℕ)
    (logs : List (TreeKey × TreeOperation)) (indices : Map TreeKey ℕ) (w : Walk)
    → ReadsAll Leaf db
    → All (IsLog Leaf) logs
    → Walks Leaf db (length logs + room) w
    → (found : Map TreeKey ℕ) × (w' : Walk) × (index_block db logs indices w ≡ returns (found, w'))
      × Walks Leaf db room w'
unfolding index_block ReadsAll Goes
index_block-Goes Leaf db room [] indices w reads kept h =
    (indices, w, refl, subst (λ n. Walks Leaf db n w) (omega arith) h)
index_block-Goes Leaf db room ((leaf, op) ∷ logs) indices w reads kept h =
    let (index, next, e, goes) =
      leaf_index-Goes Leaf db (length logs + room) (lookup (serialize_tree_leaf leaf) db) leaf op w
        refl (reads leaf kept.0.0) kept.0.1 (subst (λ n. Walks Leaf db n w) (omega arith) h) in
    let (found, last, e', walks) =
      index_block-Goes Leaf db room logs (insert leaf index indices) next reads kept.1 goes in
    (
      found,
      last,
      ap (λ m. m >>= λ r. index_block db logs (insert leaf r.0 indices) r.1) e ∙ e',
      walks,
    )

-- How many logs the groups have.
abbrev pub total : List (ℕ × List (TreeKey × TreeOperation)) → ℕ
total [] = 0
total ((block, group) ∷ groups) = length group + total groups

abbrev pub AllKept : (TreeKey → Type 0) → List (ℕ × List (TreeKey × TreeOperation)) → Type 0
AllKept Leaf groups = All (λ g. All (IsLog Leaf) g.1) groups

pub index_blocks-Goes :
    (Leaf : TreeKey → Type 0) (db : Map Bytes Bytes)
    (groups : List (ℕ × List (TreeKey × TreeOperation))) (w : Walk)
    → ReadsAll Leaf db
    → AllKept Leaf groups
    → Walks Leaf db (total groups) w
    → (found : List LeafIndices) × (w' : Walk) × (index_blocks db groups w ≡ returns (found, w'))
      × Walks Leaf db 0 w'
unfolding index_blocks
index_blocks-Goes Leaf db [] w reads kept h = ([], w, refl, h)
index_blocks-Goes Leaf db ((block, group) ∷ groups) w reads kept h =
    let start : Walks Leaf db (length group + total groups)
        (record w { initial_writes = []; repeated_writes = [] }) =
      record { numbered = h.numbered; fits = h.fits; keeps = h.keeps; old = h.old } in
    let (found, next, e, goes) =
      index_block-Goes Leaf db (total groups) group []
        (record w { initial_writes = []; repeated_writes = [] }) reads kept.0 start in
    let (rest, last, e', walks) = index_blocks-Goes Leaf db groups next reads kept.1 goes in
    let group_found : LeafIndices = record {
      leaf_indices = found;
      last_index = next.current_index;
      previous_index = w.current_index;
      initial_writes = next.initial_writes;
      repeated_writes = next.repeated_writes;
    } in
    (
      group_found ∷ rest,
      last,
      ap
            (λ m. m >>= λ r. index_blocks db groups r.1 >>= λ rs. returns (
              record {
                leaf_indices = r.0;
                last_index = r.1.current_index;
                previous_index = w.current_index;
                initial_writes = r.1.initial_writes;
                repeated_writes = r.1.repeated_writes;
              }
                  ∷ rs.0,
              rs.1,
            ))
            e
          ∙ ap (λ m. m >>= λ rs. returns (group_found ∷ rs.0, rs.1)) e',
      walks,
    )

join-total :
    (block : ℕ) (log : TreeKey × TreeOperation) (groups : List (ℕ × List (TreeKey × TreeOperation)))
    → total (join block log groups) ≡ suc (total groups)
join-total block log [] = refl
join-total block log ((next, group) ∷ groups) =
    elim (block == next)
      as (λ b.
        total
          (if b then (block, log ∷ group) ∷ groups else (block, log ∷ []) ∷ (next, group) ∷ groups)
        ≡ suc (length group + total groups)) [ true ↦ omega arith | false ↦ omega arith ]

join-AllKept :
    (Leaf : TreeKey → Type 0) (block : ℕ) (log : TreeKey × TreeOperation)
    (groups : List (ℕ × List (TreeKey × TreeOperation)))
    → IsLog Leaf log
    → AllKept Leaf groups
    → AllKept Leaf (join block log groups)
join-AllKept Leaf block log [] k ks = ((k, tt), tt)
join-AllKept Leaf block log ((next, group) ∷ groups) k ks =
    elim (block == next)
      as (λ b.
        AllKept Leaf (
          if b
          then (block, log ∷ group) ∷ groups
          else (block, log ∷ []) ∷ (next, group) ∷ groups)) [
            | true ↦ ((k, ks.0), ks.1)
            | false ↦ ((k, tt), (ks.0, ks.1))
          ]

pub total-group_by :
    (logs : List (ℕ × TreeKey × TreeOperation)) → total (group_by logs) ≡ length logs
unfolding group_by
total-group_by [] = refl
total-group_by ((block, leaf, op) ∷ logs) =
    omega (arith, join-total block (leaf, op) (group_by logs), total-group_by logs)

pub group_by-AllKept :
    (Leaf : TreeKey → Type 0) (logs : List (ℕ × TreeKey × TreeOperation))
    → All (λ l. IsLog Leaf (l.1, l.2)) logs
    → AllKept Leaf (group_by logs)
unfolding group_by
group_by-AllKept Leaf [] kept = tt
group_by-AllKept Leaf ((block, leaf, op) ∷ logs) kept =
    join-AllKept Leaf block (leaf, op) (group_by logs) kept.0 (group_by-AllKept Leaf logs kept.1)
