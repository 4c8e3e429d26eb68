-- ===== src/SealLogic/Groups.antt =====
-- Groups of neighbours, each with its owner (ola_core/src/sequencer/io/seal_logic.rs).
use ola_os.Base.{
  ℕ, ◌≡◌, refl, ap, ◌∙◌, Bool-cases, inl, inr, List, [], ◌∷◌, ◌++◌, map, append_assoc, append-nil,
  All, Outcome, returns, ◌>>=◌, ◌==◌, flat_map, arith,
}
use ola_os.SealLogic.{join_run, group_runs, traverse}

abbrev pub tag : {D B : Type 0} → D → B → D × B
tag d b = (d, b)

-- Each entry with the owner of its group.
abbrev pub owned : {D B : Type 0} → List (D × List B) → List (D × B)
owned [] = []
owned ((d, bs) ∷ groups) = map (tag d) bs ++ owned groups

map-append : {A B : Type 0} (f : A → B) (xs ys : List A) → map f (xs ++ ys) ≡ map f xs ++ map f ys
map-append f [] ys = refl
map-append f (x ∷ xs) ys = ap (λ l. f x ∷ l) (map-append f xs ys)

module _ {A B D : Type 0} (describe : ℕ → Outcome D) (d : ℕ → D) (key : A → ℕ) (g : List A → List B)
    (g1 : A → List B) (g-nil : g [] ≡ [])
    (g-cons : (a : A) (items : List A) → g (a ∷ items) ≡ g1 a ++ g items) where
  abbrev IsDescribed : ℕ → Type 0
  IsDescribed i = describe i ≡ returns (d i)

  join_run-All :
      (i : ℕ) (a : A) (groups : List (ℕ × List A))
      → IsDescribed i
      → All (λ group. IsDescribed group.0) groups
      → All (λ group. IsDescribed group.0) (join_run i a groups)
  join_run-All i a [] h k = (h, tt)
  join_run-All i a ((j, items) ∷ groups) h k = elim (Bool-cases (i == j)) [
    | inl e ↦ rw e (h, k.1)
    | inr e ↦ rw e (h, k)
  ]

  group_runs-All :
      (items : List A)
      → All (λ a. IsDescribed (key a)) items
      → All (λ group. IsDescribed group.0) (group_runs key items)
  unfolding group_runs
  group_runs-All [] h = tt
  group_runs-All (a ∷ items) h =
      join_run-All (key a) a (group_runs key items) h.0 (group_runs-All items h.1)

  abbrev owner : ℕ × List A → D × List B
  owner group = (d group.0, g group.1)

  traverse_groups :
      (groups : List (ℕ × List A))
      → All (λ group. IsDescribed group.0) groups
      → traverse (λ group. describe group.0 >>= λ x. returns (x, g group.1)) groups
        ≡ returns (map owner groups)
  unfolding traverse
  traverse_groups [] h = refl
  traverse_groups (group ∷ groups) h = rw (h.0, traverse_groups groups h.1) refl

  abbrev each : A → List (D × B)
  each a = map (tag (d (key a))) (g1 a)

  owned-cons :
      (i : ℕ) (a : A) (items : List A)
      → map (tag (d i)) (g (a ∷ items)) ≡ map (tag (d i)) (g1 a) ++ map (tag (d i)) (g items)
  owned-cons i a items =
      ap (map (tag (d i))) (g-cons a items) ∙ map-append (tag (d i)) (g1 a) (g items)

  owned-single : (i : ℕ) (a : A) → map (tag (d i)) (g (a ∷ [])) ≡ map (tag (d i)) (g1 a) ++ []
  owned-single i a = owned-cons i a [] ∙ ap (λ l. map (tag (d i)) (g1 a) ++ map (tag (d i)) l) g-nil

  owned-join_run :
      (i : ℕ) (a : A) (groups : List (ℕ × List A))
      → owned (map owner (join_run i a groups)) ≡ map (tag (d i)) (g1 a) ++ owned (map owner groups)
  owned-join_run i a [] =
      ap (λ l. l ++ []) (owned-single i a) ∙ append-nil (map (tag (d i)) (g1 a) ++ [])
  owned-join_run i a ((j, items) ∷ groups) = elim (Bool-cases (i == j)) [
    | inl e ↦
        let same_index : i ≡ j = ground (arith, e) in
        rw e (
          ap (λ l. l ++ owned (map owner groups)) (owned-cons i a items)
          ∙ append_assoc (map (tag (d i)) (g1 a)) (map (tag (d i)) (g items))
              (owned (map owner groups))
          ∙ ap
              (λ k.
                map (tag (d i)) (g1 a) ++ (map (tag (d k)) (g items) ++ owned (map owner groups)))
              same_index)
    | inr e ↦ rw e (
        ap (λ l. l ++ (map (tag (d j)) (g items) ++ owned (map owner groups)))
          (owned-single i a ∙ append-nil (map (tag (d i)) (g1 a))))
  ]

  owned-group_runs :
      (items : List A) → owned (map owner (group_runs key items)) ≡ flat_map each items
  unfolding group_runs
  owned-group_runs [] = refl
  owned-group_runs (a ∷ items) =
      owned-join_run (key a) a (group_runs key items)
      ∙ ap (λ l. each a ++ l) (owned-group_runs items)

  -- If each item's key has an owner, the groups have their owners, and each entry of a group has
  -- the owner of its own key.
  pub traverse-owned :
      (items : List A)
      → All (λ a. IsDescribed (key a)) items
      → (groups : List (D × List B)) × (traverse
            (λ group. describe group.0 >>= λ x. returns (x, g group.1))
            (group_runs key items)
          ≡ returns groups)
        × (owned groups ≡ flat_map each items)
  traverse-owned items h = (
    map owner (group_runs key items),
    traverse_groups (group_runs key items) (group_runs-All items h),
    owned-group_runs items,
  )
