-- ===== src/TreeStorage/Numbered.antt =====
-- When the leaves of a column are numbered, and that a fresh number keeps them so
-- (merkle_tree/src/storage.rs).
use ola_os.Base.{
  ℕ, suc, ◌*◌, ◌^◌, ◌<◌, ◌≡◌, ◌≢◌, refl, sym, ap, ◌∙◌, ◌⊎◌, inl, inr, Option, none, some, [], ◌∷◌,
  Outcome, returns, length, length-append, append-nil, arith,
}
use ola_os.Base.Map.{Map, lookup, insert}
use ola_os.Base.Map.Laws.{lookup-insert_self, lookup-insert_ne, lookup_head, lookup_tail, cmp-cases}
use ola_os.Base.Order.{list_ord}
use ola_os.Convert.{serialize_tree_leaf, serialize_leaf_index, deserialize_leaf_index, to_be_bytes}
use ola_os.Convert.Bytes.{deserialize-serialize, length-to_be_bytes}
use ola_os.Types.Tree.{Bytes, TreeKey}
use ola_os.TreeStorage.{leaf_index_key, put_all}

-- What a column holds once these changes are written to it.
abbrev pub or_else : Option Bytes → Option Bytes → Option Bytes
or_else none old = old
or_else (some v) old = some v

abbrev pub column : Map Bytes Bytes → Map Bytes Bytes → Bytes → Option Bytes
column puts db k = or_else (lookup k puts) (lookup k db)

-- Of the leaves that occur, each that the column holds has an index below the bound.
unfoldable pub Bounded : (TreeKey → Type 0) → ℕ → (Bytes → Option Bytes) → Type 0
Bounded Leaf n c =
    (leaf : TreeKey) (bytes : Bytes)
    → Leaf leaf
    → c (serialize_tree_leaf leaf) ≡ some bytes
    → (i : ℕ) × (bytes ≡ serialize_leaf_index i) × (i < n)

-- No two of them have the same index.
unfoldable pub Distinct : (TreeKey → Type 0) → (Bytes → Option Bytes) → Type 0
Distinct Leaf c =
    (leaf other : TreeKey) (bytes : Bytes)
    → Leaf leaf
    → Leaf other
    → c (serialize_tree_leaf leaf) ≡ some bytes
    → c (serialize_tree_leaf other) ≡ some bytes
    → serialize_tree_leaf leaf ≡ serialize_tree_leaf other

unfoldable pub Numbered : (TreeKey → Type 0) → ℕ → (Bytes → Option Bytes) → Type 0
Numbered Leaf n c = Bounded Leaf n c × Distinct Leaf c

pub deserialize-serialize_index :
    (i : ℕ) → i < 2 ^ 64 → deserialize_leaf_index (serialize_leaf_index i) ≡ returns i
deserialize-serialize_index i h =
    ap deserialize_leaf_index (sym (append-nil (serialize_leaf_index i)))
    ∙ (deserialize-serialize 0 i [] (omega arith) h).1

-- An outcome's value, for the proof that `returns` is one to one.
abbrev value_of : Outcome ℕ → ℕ
value_of (returns n) = n
value_of _ = 0

pub serialize_leaf_index_inj :
    (i j : ℕ) → i < 2 ^ 64 → j < 2 ^ 64 → serialize_leaf_index i ≡ serialize_leaf_index j → i ≡ j
serialize_leaf_index_inj i j h k e = ap value_of (
    sym (deserialize-serialize_index i h)
    ∙ ap deserialize_leaf_index e
    ∙ deserialize-serialize_index j k)

pub leaf_words : (leaf : TreeKey) → length (serialize_tree_leaf leaf) ≡ 8 * length leaf
unfolding serialize_tree_leaf
leaf_words [] = refl
leaf_words (x ∷ xs) = omega (
  arith,
  length-append (to_be_bytes 8 x) (serialize_tree_leaf xs),
  length-to_be_bytes 8 x,
  leaf_words xs,
)

-- The counter's key is no leaf's.
pub leaf_ne : (leaf : TreeKey) → serialize_tree_leaf leaf ≢ leaf_index_key
leaf_ne leaf e =
    let n : length (serialize_tree_leaf leaf) ≡ 10 = ap length e in
    omega (arith, leaf_words leaf, n)

-- Columns that agree on the leaves.
pub Numbered-agree :
    (Leaf : TreeKey → Type 0) (n : ℕ) (c c' : Bytes → Option Bytes)
    → ((leaf : TreeKey) → Leaf leaf → c' (serialize_tree_leaf leaf) ≡ c (serialize_tree_leaf leaf))
    → Numbered Leaf n c
    → Numbered Leaf n c'
unfolding Numbered Bounded Distinct
Numbered-agree Leaf n c c' e (b, d) = (
  λ leaf bytes l h. b leaf bytes l (sym (e leaf l) ∙ h),
  λ leaf other bytes l o h k. d leaf other bytes l o (sym (e leaf l) ∙ h) (sym (e other o) ∙ k),
)

-- The fresh index is nobody's.
fresh :
    (Leaf : TreeKey → Type 0) (n : ℕ) (c : Bytes → Option Bytes) (leaf : TreeKey)
    → Leaf leaf
    → n < 2 ^ 64
    → Bounded Leaf n c
    → c (serialize_tree_leaf leaf) ≢ some (serialize_leaf_index n)
unfolding Bounded
fresh Leaf n c leaf l small b h =
    let (i, e, below) = b leaf (serialize_leaf_index n) l h in
    omega (arith, serialize_leaf_index_inj n i small (omega arith) e)

some_eq : {a b : Bytes} → some a ≡ some b → a ≡ b
some_eq h = cc

-- What a column holds after a change was the change or is what it held.
column-insert :
    (key value k bytes : Bytes) (puts db : Map Bytes Bytes)
    → column (insert key value puts) db k ≡ some bytes
    → ((k ≡ key) × (value ≡ bytes)) ⊎ (column puts db k ≡ some bytes)
column-insert key value k bytes puts db h = elim (cmp-cases k key) [
  | inl same_key ↦ inl (
    same_key,
    some_eq (
        sym (
          ap (λ o. or_else o (lookup k db))
            (ap (λ j. lookup j (insert key value puts)) same_key
              ∙ lookup-insert_self key value puts))
        ∙ h),
  )
  | inr other ↦
      inr (sym (ap (λ o. or_else o (lookup k db)) (lookup-insert_ne k key value puts other)) ∙ h)
]

-- A leaf gets the next index.
pub Numbered-insert :
    (Leaf : TreeKey → Type 0) (n : ℕ) (puts db : Map Bytes Bytes) (leaf : TreeKey)
    → n < 2 ^ 64
    → Numbered Leaf n (column puts db)
    → Numbered Leaf
        (suc n)
        (column (insert (serialize_tree_leaf leaf) (serialize_leaf_index n) puts) db)
unfolding Numbered Bounded Distinct
Numbered-insert Leaf n puts db leaf small (b, d) =
    let key = serialize_tree_leaf leaf in
    let value = serialize_leaf_index n in
    (
      λ one bytes l h. elim (column-insert key value (serialize_tree_leaf one) bytes puts db h) [
        | inl now ↦ (n, sym now.1, omega arith)
        | inr before ↦ let (i, e, below) = b one bytes l before in (i, e, omega arith)
      ],
      λ one other bytes l o h k.
          elim (column-insert key value (serialize_tree_leaf one) bytes puts db h) [
            | inl now ↦ elim (column-insert key value (serialize_tree_leaf other) bytes puts db k) [
              | inl now' ↦ now.0 ∙ sym now'.0
              | inr before ↦
                  absurd
                    (fresh Leaf n (column puts db) other o small b (before ∙ ap some (sym now.1)))
            ]
            | inr before ↦
                elim (column-insert key value (serialize_tree_leaf other) bytes puts db k) [
                  | inl now' ↦
                      absurd (
                        fresh Leaf n (column puts db) one l small b (before ∙ ap some (sym now'.1)))
                  | inr before' ↦ d one other bytes l o before before'
                ]
          ],
    )

-- Writing the changes to the column yields what it then holds.
pub lookup-put_all :
    (puts db : Map Bytes Bytes) (k : Bytes) → lookup k (put_all puts db) ≡ column puts db k
unfolding put_all lookup
lookup-put_all [] db k = refl
lookup-put_all ((key, value) ∷ puts) db k = elim (cmp-cases k key) [
  | inl e ↦
      ap (λ j. lookup j (insert key value (put_all puts db))) e
      ∙ lookup-insert_self key value (put_all puts db)
      ∙ sym (
          ap (λ o. or_else o (lookup k db))
            (ap (λ j. lookup j ((key, value) ∷ puts)) e ∙ lookup_head key value puts))
  | inr e ↦
      lookup-insert_ne k key value (put_all puts db) e
      ∙ lookup-put_all puts db k
      ∙ sym (ap (λ o. or_else o (lookup k db)) (lookup_tail k key value puts e))
]
