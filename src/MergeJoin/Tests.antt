-- ===== src/MergeJoin/Tests.antt =====
-- Two short iterators of numbers, which are their own indices.
use ola_os.Base.{ℕ, ◌≡◌, refl, none, some, List, [], ◌∷◌, suc, length, arith}
use ola_os.MergeJoin.{Either, left, right, new, collect}
use ola_os.MergeJoin.Choice.{lefts, rights, by_index, annotate}
use ola_os.MergeJoin.Merged.{collect-new}

abbrev index : ℕ → ℕ
index n = n

abbrev items : List (Either ℕ)
items = left 1 ∷ left 2 ∷ right 4 ∷ left 5 ∷ right 7 ∷ right 9 ∷ []

pairs :
    annotate index index none none items
    ≡ (1, none) ∷ (2, none) ∷ (4, some 2) ∷ (5, some 4) ∷ (7, some 5) ∷ (9, some 5) ∷ []
pairs = refl

collect-new_example :
    collect
      (by_index index index)
      index
      (suc (length items))
      (new (by_index index index) index (lefts items) (rights items))
    ≡ annotate index index none none items
collect-new_example = collect-new index index items (ground arith)
