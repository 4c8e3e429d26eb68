-- ===== src/TreeStorage/Tests.antt =====
-- A fresh tree, and a block that writes two leaves, one of them twice, and reads a third.
use ola_os.Base.{
  ℕ, zero, suc, ◌+◌, ◌/◌, ◌%◌, ◌⊎◌, inl, inr, ◌++◌, ltb, if◌then◌else◌, sym, ◌∙◌, ◌≡◌, ◌≢◌, refl,
  ap, none, some, List, [], ◌∷◌, Outcome, returns, length, arith,
}
use ola_os.Base.Map.{lookup, insert}
use ola_os.Base.Order.{list_ord}
use ola_os.Convert.{serialize_tree_leaf, to_be_bytes}
use ola_os.Types.Tree.{Bytes, TreeKey, LevelIndex, TreeOperation, write, read, LeafIndices}
use ola_os.TreeStorage.{Storage, next_index, process_leaf_indices, pre_save, save, saved}
use ola_os.TreeStorage.Numbered.{Bounded, Distinct, Numbered}
use ola_os.TreeStorage.Pending.{IsNumbered, IsOther}
use ola_os.TreeStorage.Kept.{Keeps, save-process_leaf_indices}

abbrev new_tree : Storage
new_tree = record {
  db = [];
  block_number = none;
  put_pending_patch = [];
  delete_pending_patch = [];
}

abbrev one_leaf : TreeKey
one_leaf = 5 ∷ 0 ∷ 0 ∷ 7 ∷ []

abbrev next_leaf : TreeKey
next_leaf = 5 ∷ 0 ∷ 1 ∷ 7 ∷ []

abbrev other_leaf : TreeKey
other_leaf = 4 ∷ 0 ∷ 1 ∷ 7 ∷ []

abbrev logs : List (ℕ × TreeKey × TreeOperation)
logs =
    (0, one_leaf, write next_leaf other_leaf)
    ∷ (0, next_leaf, write one_leaf other_leaf)
    ∷ (0, other_leaf, read one_leaf)
    ∷ (0, one_leaf, write other_leaf next_leaf)
    ∷ []

abbrev Occurs : TreeKey → Type 0
Occurs leaf = (leaf ≡ one_leaf) ⊎ ((leaf ≡ next_leaf) ⊎ (leaf ≡ other_leaf))

abbrev hex_digit : ℕ → ℕ
hex_digit d = if ltb d 10 then 48 + d else 87 + d

abbrev hex : ℕ → ℕ → Bytes
hex zero n = []
hex (suc digits) n =
    let rest = hex digits (n / 16) in
    if ltb n 16 then hex_digit n ∷ [] else rest ++ (hex_digit (n % 16) ∷ [])

-- The serialisation of a node's place: the level in two bytes, and the index as a string of
-- hexadecimal digits after its length in eight.
abbrev bin_key : LevelIndex → Bytes
bin_key place =
    let digits = hex 64 place.1 in
    (place.0 % 256)
    ∷ (place.0 / 256)
    ∷ (2 + length digits)
    ∷ 0
    ∷ 0
    ∷ 0
    ∷ 0
    ∷ 0
    ∷ 0
    ∷ 0
    ∷ 48
    ∷ 120
    ∷ digits

abbrev first_byte : Bytes → ℕ
first_byte [] = 0
first_byte (b ∷ bs) = b

first_byte-Occurs : (leaf : TreeKey) → Occurs leaf → first_byte (serialize_tree_leaf leaf) ≡ 0
unfolding serialize_tree_leaf to_be_bytes
first_byte-Occurs leaf (inl e) = ap (λ l. first_byte (serialize_tree_leaf l)) e
first_byte-Occurs leaf (inr (inl e)) = ap (λ l. first_byte (serialize_tree_leaf l)) e
first_byte-Occurs leaf (inr (inr e)) = ap (λ l. first_byte (serialize_tree_leaf l)) e

bin_key-IsOther :
    (place : LevelIndex) → place.0 % 256 ≢ 0 → place.0 % 256 ≢ 108 → IsOther Occurs (bin_key place)
bin_key-IsOther place positive no_counter = (
  λ e. no_counter (sym (ap first_byte e)),
  λ leaf occurs e. positive (sym (ap first_byte e) ∙ first_byte-Occurs leaf occurs),
)

-- The second one has a key as long as a leaf's.
abbrev branches : List (LevelIndex × TreeKey)
branches = ((1, 1), one_leaf) ∷ ((80, 604462909807314587353093), next_leaf) ∷ []

same_length :
    length (bin_key (80, 604462909807314587353093)) ≡ length (serialize_tree_leaf one_leaf)
unfolding serialize_tree_leaf to_be_bytes
same_length = refl

none-some : {b : Bytes} → none ≢ some b
none-some e = cc

new_tree-IsNumbered : IsNumbered Occurs 1 new_tree
unfolding next_index Numbered Bounded Distinct lookup
new_tree-IsNumbered = record {
  counter = refl;
  numbered =
      (λ leaf bytes l e. absurd (none-some e), λ leaf other bytes l o e k. absurd (none-some e));
  written = λ k. refl;
  no_delete = refl;
}

-- The indices that a block's leaves get, with the next one.
abbrev spans : List LeafIndices → List (ℕ × ℕ × ℕ)
spans [] = []
spans (l ∷ ls) = (l.previous_index, l.last_index, length l.repeated_writes) ∷ spans ls

abbrev indices : Outcome (List LeafIndices × Storage) → List (ℕ × ℕ × ℕ)
indices (returns r) = spans r.0
indices _ = []

two_indices : indices (process_leaf_indices new_tree logs) ≡ (1, 3, 1) ∷ []
unfolding process_leaf_indices lookup insert
two_indices = refl

save-process_leaf_indices_example :
    (found : List LeafIndices) × (pending : Storage) × (t : Storage) × (m : ℕ)
    × (process_leaf_indices new_tree logs ≡ returns (found, pending))
    × (save 3 (pre_save bin_key branches pending) ≡ saved t)
    × IsNumbered Occurs m t
    × Keeps Occurs new_tree t
save-process_leaf_indices_example =
    save-process_leaf_indices Occurs bin_key 1 3 new_tree logs branches new_tree-IsNumbered
      ((inl refl, tt), ((inr (inl refl), tt), ((inr (inr refl), tt), ((inl refl, tt), tt))))
      (omega arith)
      (
        bin_key-IsOther (1, 1) (omega arith) (omega arith),
        (bin_key-IsOther (80, 604462909807314587353093) (omega arith) (omega arith), tt),
      )
