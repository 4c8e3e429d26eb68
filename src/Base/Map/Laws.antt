-- ===== src/Base/Map/Laws.antt =====
-- Lookups after an update of a map.
use ola_os.Base.Order.{Ord}
use ola_os.Base.Map.{Map, Set, lookup, insert, remove, contains, add, Above, IsSorted}
use Prim.Native.Nat.{Ordering}
use mathlib.Core.Path.{◌≡◌, refl}
use mathlib.Core.Logic.{◌≢◌, ◌⊎◌, inl, inr}
use mathlib.Core.Bool.{true, false}
use mathlib.Core.Option.{none, some}
use mathlib.Core.List.{[], ◌∷◌}
use native.Mathlib.Omega.{arith}

module _ {ℓ κ} {K : Type ℓ} {V : Type κ} ⦃o : Ord K⦄ where
  pub lookup-insert_self : (k : K) (v : V) (m : Map K V) → lookup k (insert k v m) ≡ some v
  unfolding lookup insert
  lookup-insert_self k v [] = ground (arith, o.cmp_self k)
  lookup-insert_self k v ((j, w) ∷ m) = ground (arith, o.cmp_self k, lookup-insert_self k v m)

  pub lookup-insert_ne :
      (j k : K) (v : V) (m : Map K V) → j ≢ k → lookup j (insert k v m) ≡ lookup j m
  unfolding lookup insert
  lookup-insert_ne j k v [] h = ground (arith, o.cmp-eq j k)
  lookup-insert_ne j k v ((i, w) ∷ m) h =
      ground (arith, o.cmp-eq j k, o.cmp-eq k i, lookup-insert_ne j k v m h)

  pub lookup_head : (k : K) (v : V) (m : Map K V) → lookup k ((k, v) ∷ m) ≡ some v
  unfolding lookup
  lookup_head k v m = ground (arith, o.cmp_self k)

  pub lookup_tail : (j k : K) (v : V) (m : Map K V) → j ≢ k → lookup j ((k, v) ∷ m) ≡ lookup j m
  unfolding lookup
  lookup_tail j k v m h = ground (arith, o.cmp-eq j k)

  pub lookup-remove_ne : (j k : K) (m : Map K V) → j ≢ k → lookup j (remove k m) ≡ lookup j m
  unfolding lookup remove
  lookup-remove_ne j k [] h = refl
  lookup-remove_ne j k ((i, w) ∷ m) h =
      ground (arith, o.cmp-eq j i, o.cmp-eq k i, lookup-remove_ne j k m h)

  pub Above-mono : (i k : K) (m : Map K V) → o.cmp i k ≡ Ordering.lt → Above k m → Above i m
  Above-mono i k [] h a = tt
  Above-mono i k ((j, w) ∷ m) h a = (o.cmp_trans i k j h a.0, a.1)

  pub IsSorted-of_Above : (k : K) (m : Map K V) → Above k m → IsSorted m
  IsSorted-of_Above k [] h = tt
  IsSorted-of_Above k ((j, w) ∷ m) h = h.1

  pub lookup_below : (k : K) (m : Map K V) → Above k m → lookup k m ≡ none
  unfolding lookup
  lookup_below k [] h = refl
  lookup_below k ((j, w) ∷ m) h = ground (arith, lookup_below k m (Above-mono k j m h.0 h.1))

  pub lookup-remove_self : (k : K) (m : Map K V) → IsSorted m → lookup k (remove k m) ≡ none
  unfolding lookup remove
  lookup-remove_self k [] h = refl
  lookup-remove_self k ((j, w) ∷ m) h = ground (
    arith,
    o.cmp-eq k j,
    lookup_below k m,
    lookup-remove_self k m (IsSorted-of_Above j m h),
    Above-mono k j m,
  )

module _ {ℓ} {K : Type ℓ} ⦃o : Ord K⦄ where
  pub contains-add_self : (k : K) (s : Set K) → contains k (add k s) ≡ true
  unfolding contains add
  contains-add_self k s = rw (lookup-insert_self k tt s)

  pub contains-add_ne : (j k : K) (s : Set K) → j ≢ k → contains j (add k s) ≡ contains j s
  unfolding contains add
  contains-add_ne j k s h = rw (lookup-insert_ne j k tt s h)

  pub contains-remove_ne : (j k : K) (s : Set K) → j ≢ k → contains j (remove k s) ≡ contains j s
  unfolding contains
  contains-remove_ne j k s h = rw (lookup-remove_ne j k s h)

  pub contains-remove_self : (k : K) (s : Set K) → IsSorted s → contains k (remove k s) ≡ false
  unfolding contains
  contains-remove_self k s h = rw (lookup-remove_self k s h)

  ne_of_lt : (j k : K) → o.cmp j k ≡ Ordering.lt → j ≢ k
  ne_of_lt j k h e = ground (arith, o.cmp_self k)

  ne_of_gt : (j k : K) → o.cmp j k ≡ Ordering.gt → j ≢ k
  ne_of_gt j k h e = ground (arith, o.cmp_self k)

  by_cmp : (j k : K) (c : Ordering) → o.cmp j k ≡ c → (j ≡ k) ⊎ (j ≢ k)
  by_cmp j k Ordering.lt h = inr (ne_of_lt j k h)
  by_cmp j k Ordering.eq h = inl (o.cmp-eq j k h)
  by_cmp j k Ordering.gt h = inr (ne_of_gt j k h)

  -- Equal keys, as a decision.
  pub cmp-cases : (j k : K) → (j ≡ k) ⊎ (j ≢ k)
  cmp-cases j k = by_cmp j k (o.cmp j k) refl

  pub contains-lookup : (k : K) (s : Set K) → contains k s ≡ true → lookup k s ≡ some tt
  unfolding contains
  contains-lookup k s h = ground arith

  pub lookup-contains :
      (k : K) (s : Set K) {u : Unit {0}} → lookup k s ≡ some u → contains k s ≡ true
  unfolding contains
  lookup-contains k s h = rw h

  pub contains-add_keep : (j k : K) (s : Set K) → contains j s ≡ true → contains j (add k s) ≡ true
  contains-add_keep j k s h = elim (cmp-cases j k) [
    | inl same ↦ rw same (contains-add_self k s)
    | inr other ↦ rw (contains-add_ne j k s other) h
  ]

  pub contains-cons :
      (j k : K) {u : Unit {0}} (s : Set K)
      → contains j ((k, u) ∷ s) ≡ true
      → (j ≡ k) ⊎ (contains j s ≡ true)
  unfolding contains lookup
  contains-cons j k s h = ground (arith, o.cmp-eq j k)

  pub contains_head : (k : K) {u : Unit {0}} (s : Set K) → contains k ((k, u) ∷ s) ≡ true
  unfolding contains lookup
  contains_head k s = ground (arith, o.cmp_self k)

  pub contains_tail :
      (j k : K) {u : Unit {0}} (s : Set K) → contains j s ≡ true → contains j ((k, u) ∷ s) ≡ true
  unfolding contains lookup
  contains_tail j k s h = ground arith

  pub absent-lookup : (k : K) (s : Set K) → contains k s ≡ false → lookup k s ≡ none
  unfolding contains
  absent-lookup k s h = ground arith
