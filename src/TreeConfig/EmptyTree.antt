-- ===== src/TreeConfig/EmptyTree.antt =====
-- The shape of the empty tree (merkle_tree/src/tree_config.rs).
use ola_os.Base.{
  returns, ℕ, zero, suc, ◌+◌, ◌≡◌, refl, sym, ap, ◌∙◌, subst, subst₂, Option, none, some, List, [],
  ◌∷◌, ◌++◌, arith,
}
use ola_os.Types.Tree.{TreeKey}
use ola_os.TreeConfig.{
  NodeEntry, branch, leaf, into_hash, tree_key_default, reverse, make_node, zip_nodes,
  calc_empty_tree, kind_at, hash_levels, calc_default_hashes, empty_tree, default_root_hash,
  map_option,
}

reverse-snoc : {A : Type 0} (xs : List A) (z : A) → reverse (xs ++ z ∷ []) ≡ z ∷ reverse xs
reverse-snoc [] z = refl
reverse-snoc (x ∷ xs) z = ap (λ l. l ++ x ∷ []) (reverse-snoc xs z)

zip_nodes-snoc :
    (prev : Option TreeKey) (xs : List TreeKey) (a b : TreeKey)
    → zip_nodes prev ((xs ++ a ∷ []) ++ b ∷ [])
      ≡ zip_nodes prev (xs ++ a ∷ []) ++ make_node (some a) b ∷ []
zip_nodes-snoc prev [] a b = refl
zip_nodes-snoc prev (x ∷ xs) a b = ap (λ l. make_node prev x ∷ l) (zip_nodes-snoc (some x) xs a b)

calc_empty_tree-cons :
    (hash last_hash : TreeKey) (hashes : List TreeKey)
    → calc_empty_tree (hash ∷ last_hash ∷ hashes)
      ≡ branch hash last_hash last_hash ∷ calc_empty_tree (last_hash ∷ hashes)
unfolding calc_empty_tree
calc_empty_tree-cons hash last_hash hashes =
    ap reverse (zip_nodes-snoc none (reverse hashes) last_hash hash)
    ∙ reverse-snoc (zip_nodes none (reverse hashes ++ last_hash ∷ []))
        (branch hash last_hash last_hash)

module _ {Kind : Type 0} (leaf_kind branch_kind : Kind)
    (compress : TreeKey → TreeKey → Kind → TreeKey) where
  -- The nodes of an empty tree of a depth, the root first: a node's hash is that of its two equal
  -- children, of the leaves' kind over leaves, and of the branches' kind above.
  pub data IsEmptyTree : ℕ → TreeKey → List NodeEntry → Type 0 where
    bottom : IsEmptyTree 0 tree_key_default (leaf tree_key_default ∷ [])
    over_leaf : IsEmptyTree 1 (compress tree_key_default tree_key_default leaf_kind) (
        branch
          (compress tree_key_default tree_key_default leaf_kind)
          tree_key_default
          tree_key_default
        ∷ leaf tree_key_default
        ∷ [])
    over_branch :
        (depth : ℕ) (hash : TreeKey) (nodes : List NodeEntry)
        → IsEmptyTree (suc depth) hash nodes
        → IsEmptyTree
            (suc (suc depth))
            (compress hash hash branch_kind)
            (branch (compress hash hash branch_kind) hash hash ∷ nodes)

  kind_above : (n : ℕ) → kind_at leaf_kind branch_kind compress (suc n) ≡ branch_kind
  kind_above n = ground arith

  -- One more index of the loop.
  level :
      (depth : ℕ) (hash : TreeKey) (nodes : List NodeEntry)
      → IsEmptyTree depth hash nodes
      → let above = compress hash hash (kind_at leaf_kind branch_kind compress depth) in
        IsEmptyTree (suc depth) above (branch above hash hash ∷ nodes)
  level depth hash nodes bottom = over_leaf
  level depth hash nodes over_leaf =
      over_branch 0 (compress tree_key_default tree_key_default leaf_kind) nodes over_leaf
  level depth hash nodes (over_branch d h n t) =
      subst
        (λ kind.
          let above = compress hash hash kind in
          IsEmptyTree (suc (suc (suc d))) above (branch above hash hash ∷ nodes))
        (sym (kind_above (suc d))) (over_branch (suc d) hash nodes (over_branch d h n t))

  root_hash :
      (depth : ℕ) (hash : TreeKey) (nodes : List NodeEntry)
      → IsEmptyTree depth hash nodes
      → default_root_hash nodes ≡ returns hash
  unfolding default_root_hash into_hash
  root_hash depth hash nodes bottom = refl
  root_hash depth hash nodes over_leaf = refl
  root_hash depth hash nodes (over_branch d h n t) = refl

  one_more : (n : ℕ) → suc n ≡ n + 1
  one_more n = omega arith

  hash_levels-IsEmptyTree :
      (left index : ℕ) (hash : TreeKey) (hashes : List TreeKey)
      → IsEmptyTree index hash (calc_empty_tree (hash ∷ hashes))
      → (root : TreeKey) × (all : List TreeKey) × (hash_levels leaf_kind branch_kind compress left
            index
            (hash ∷ hashes)
          ≡ some all)
        × IsEmptyTree (left + index) root (calc_empty_tree all)
  unfolding hash_levels
  hash_levels-IsEmptyTree zero index hash hashes t = (
    hash,
    hash ∷ hashes,
    refl,
    subst (λ n. IsEmptyTree n hash (calc_empty_tree (hash ∷ hashes))) (omega arith) t,
  )
  hash_levels-IsEmptyTree (suc left) index hash hashes t =
      let above = compress hash hash (kind_at leaf_kind branch_kind compress index) in
      let (root, all, e, t') = hash_levels-IsEmptyTree left (index + 1) above (hash ∷ hashes) (
        subst₂ (λ n nodes. IsEmptyTree n above nodes) (one_more index)
          (sym (calc_empty_tree-cons above hash hashes))
          (level index hash (calc_empty_tree (hash ∷ hashes)) t)) in
      (root, all, e, subst (λ n. IsEmptyTree n root (calc_empty_tree all)) (omega arith) t')

-- For every depth the configuration's empty tree is made without an error, it has one node for
-- each level, from the root down to the leaf, which has the default hash; every other node has the
-- hash of its two equal children, of the leaves' kind right above the leaf and of the branches'
-- kind above that; and the default root hash is the hash of the first node.
pub empty_tree-IsEmptyTree :
    {Kind : Type 0} (leaf_kind branch_kind : Kind) (compress : TreeKey → TreeKey → Kind → TreeKey)
    (depth : ℕ)
    → (root : TreeKey) × (nodes : List NodeEntry) × (empty_tree leaf_kind branch_kind compress depth
        ≡ some nodes)
      × IsEmptyTree leaf_kind branch_kind compress depth root nodes
      × (default_root_hash nodes ≡ returns root)
unfolding empty_tree calc_default_hashes calc_empty_tree
empty_tree-IsEmptyTree leaf_kind branch_kind compress depth =
    let (root, all, e, t) =
      hash_levels-IsEmptyTree leaf_kind branch_kind compress depth 0 tree_key_default [] bottom in
    let whole =
      subst (λ n. IsEmptyTree leaf_kind branch_kind compress n root (calc_empty_tree all))
        (omega arith) t in
    (
      root,
      calc_empty_tree all,
      ap (map_option calc_empty_tree) e,
      whole,
      root_hash leaf_kind branch_kind compress depth root (calc_empty_tree all) whole,
    )
