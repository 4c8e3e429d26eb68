-- ===== src/TreeConfig/Tests.antt =====
-- A stand-in hasher that adds the first elements.
use ola_os.Base.{returns, ℕ, ◌+◌, ◌≡◌, refl, Bool, true, false, some, List, [], ◌∷◌, if◌then◌else◌}
use ola_os.Types.Tree.{TreeKey}
use ola_os.TreeConfig.{NodeEntry, branch, leaf, empty_tree, default_root_hash}
use ola_os.TreeConfig.EmptyTree.{IsEmptyTree, empty_tree-IsEmptyTree}

abbrev head_of : TreeKey → ℕ
head_of [] = 0
head_of (n ∷ items) = n

abbrev add_heads : TreeKey → TreeKey → Bool → TreeKey
add_heads l r kind = (head_of l + head_of r + (if kind then 1 else 2)) ∷ 0 ∷ 0 ∷ 0 ∷ []

three_levels :
    empty_tree true false add_heads 2
    ≡ some (
        branch (4 ∷ 0 ∷ 0 ∷ 0 ∷ []) (1 ∷ 0 ∷ 0 ∷ 0 ∷ []) (1 ∷ 0 ∷ 0 ∷ 0 ∷ [])
        ∷ branch (1 ∷ 0 ∷ 0 ∷ 0 ∷ []) (0 ∷ 0 ∷ 0 ∷ 0 ∷ []) (0 ∷ 0 ∷ 0 ∷ 0 ∷ [])
        ∷ leaf (0 ∷ 0 ∷ 0 ∷ 0 ∷ [])
        ∷ [])
unfolding empty_tree
three_levels = refl

empty_tree-IsEmptyTree_example :
    (root : TreeKey) × (nodes : List NodeEntry) × (empty_tree true false add_heads 2 ≡ some nodes)
    × IsEmptyTree true false add_heads 2 root nodes
    × (default_root_hash nodes ≡ returns root)
empty_tree-IsEmptyTree_example = empty_tree-IsEmptyTree true false add_heads 2
