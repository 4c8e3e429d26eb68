-- ===== src/Base/Map/Sorted.antt =====
-- Updates keep a map sorted; an update that is undone gives the same map back.
use ola_os.Base.Tests.{is_some, if◌then◌else◌}
use ola_os.Base.Lists.{length}
use ola_os.Base.Order.{Ord}
use ola_os.Base.Map.{Map, Set, lookup, insert, remove, contains, add, Above, IsSorted}
use ola_os.Base.Map.Laws.{
  absent-lookup, contains-lookup, Above-mono, lookup_below, IsSorted-of_Above,
}
use Prim.Native.Nat.{◌+◌, Ordering}
use mathlib.Core.Path.{◌≡◌, refl}
use mathlib.Core.Bool.{true, false}
use mathlib.Core.Option.{none, some}
use mathlib.Core.List.{[], ◌∷◌}
use native.Mathlib.Omega.{arith}

module _ {ℓ κ} {K : Type ℓ} {V : Type κ} ⦃o : Ord K⦄ where
  pub insert-Above :
      (i k : K) (v : V) (m : Map K V) → o.cmp i k ≡ Ordering.lt → Above i m → Above i (insert k v m)
  unfolding insert
  insert-Above i k v [] h a = (h, tt)
  insert-Above i k v ((j, w) ∷ m) h a =
      ground (arith, o.cmp-eq k j, o.cmp-gt k j, insert-Above j k v m)

  pub insert-IsSorted : (k : K) (v : V) (m : Map K V) → IsSorted m → IsSorted (insert k v m)
  unfolding insert
  insert-IsSorted k v [] h = tt
  insert-IsSorted k v ((j, w) ∷ m) h =
      ground (arith, o.cmp-eq k j, o.cmp-gt k j, insert-Above j k v m)

  pub remove-Above : (i k : K) (m : Map K V) → Above i m → Above i (remove k m)
  unfolding remove
  remove-Above i k [] a = tt
  remove-Above i k ((j, w) ∷ m) a = ground (arith, remove-Above j k m, Above-mono i j m)

  pub remove-IsSorted : (k : K) (m : Map K V) → IsSorted m → IsSorted (remove k m)
  unfolding remove
  remove-IsSorted k [] h = tt
  remove-IsSorted k ((j, w) ∷ m) h = ground (arith, remove-Above j k m, IsSorted-of_Above j m)

  -- A key that was absent, added and removed again.
  pub remove-insert :
      (k : K) (v : V) (m : Map K V) → IsSorted m → lookup k m ≡ none → remove k (insert k v m) ≡ m
  unfolding remove insert lookup
  remove-insert k v [] h e = ground (arith, o.cmp_self k)
  remove-insert k v ((j, w) ∷ m) h e =
      ground (arith, o.cmp_self k, remove-insert k v m (IsSorted-of_Above j m h))

  insert_below : (k : K) (v : V) (m : Map K V) → Above k m → insert k v m ≡ (k, v) ∷ m
  unfolding insert
  insert_below k v [] h = refl
  insert_below k v ((j, w) ∷ m) h = ground arith

  -- An entry that was removed and put back.
  pub insert-remove :
      (k : K) (v : V) (m : Map K V) → IsSorted m → lookup k m ≡ some v → insert k v (remove k m) ≡ m
  unfolding remove insert lookup
  insert-remove k v [] h e = cc
  insert-remove k v ((j, w) ∷ m) h e = ground (
    arith,
    o.cmp-eq k j,
    insert_below k v m,
    Above-mono k j m,
    lookup_below k m,
    insert-remove k v m (IsSorted-of_Above j m h),
  )

  pub length-insert :
      (k : K) (v : V) (m : Map K V)
      → IsSorted m
      → length (insert k v m) ≡ length m + (if is_some (lookup k m) then 0 else 1)
  unfolding insert lookup
  length-insert k v [] h = omega arith
  length-insert k v ((j, w) ∷ m) h =
      ground
        (arith, Above-mono k j m, lookup_below k m, length-insert k v m (IsSorted-of_Above j m h))

  pub length-remove :
      (k : K) (m : Map K V)
      → length (remove k m) + (if is_some (lookup k m) then 1 else 0) ≡ length m
  unfolding remove lookup
  length-remove k [] = omega arith
  length-remove k ((j, w) ∷ m) = ground (arith, length-remove k m)

  pub remove_absent : (k : K) (m : Map K V) → lookup k m ≡ none → remove k m ≡ m
  unfolding remove lookup
  remove_absent k [] e = refl
  remove_absent k ((j, w) ∷ m) e = ground (arith, remove_absent k m)

  pub insert-insert :
      (k : K) (v w : V) (m : Map K V) → IsSorted m → insert k v (insert k w m) ≡ insert k v m
  unfolding insert
  insert-insert k v w [] h = ground (arith, o.cmp_self k)
  insert-insert k v w ((j, u) ∷ m) h =
      ground (arith, o.cmp_self k, insert-insert k v w m (IsSorted-of_Above j m h))

  pub insert_same :
      (k : K) (v : V) (m : Map K V) → IsSorted m → lookup k m ≡ some v → insert k v m ≡ m
  unfolding insert lookup
  insert_same k v [] h e = cc
  insert_same k v ((j, w) ∷ m) h e = ground (
    arith,
    o.cmp-eq k j,
    Above-mono k j m,
    lookup_below k m,
    insert_same k v m (IsSorted-of_Above j m h),
  )

module _ {ℓ} {K : Type ℓ} ⦃o : Ord K⦄ where
  pub add-IsSorted : (k : K) (s : Set K) → IsSorted s → IsSorted (add k s)
  unfolding add
  add-IsSorted k s h = insert-IsSorted k tt s h

  pub remove-add : (k : K) (s : Set K) → IsSorted s → contains k s ≡ false → remove k (add k s) ≡ s
  unfolding add
  remove-add k s h e = remove-insert k tt s h (absent-lookup k s e)

  pub add-remove : (k : K) (s : Set K) → IsSorted s → contains k s ≡ true → add k (remove k s) ≡ s
  unfolding add
  add-remove k s h e = insert-remove k tt s h (contains-lookup k s e)
