-- ===== src/Base/Map/Entries.antt =====
-- Properties of all entries of a map, and sums over them.
use ola_os.Base.Lists.{All}
use ola_os.Base.Order.{Ord}
use ola_os.Base.Map.{Map, lookup, insert, remove, IsSorted}
use ola_os.Base.Map.Laws.{cmp-cases, IsSorted-of_Above, lookup_below, Above-mono}
use Prim.Native.Nat.{ℕ, ◌+◌, ◌≤◌}
use mathlib.Core.Path.{◌≡◌}
use mathlib.Core.Logic.{inl, inr}
use mathlib.Core.Option.{Option, none, some}
use mathlib.Core.List.{[], ◌∷◌}
use native.Mathlib.Omega.{arith}

module _ {ℓ κ ι} {K : Type ℓ} {V : Type κ} ⦃o : Ord K⦄ (P : K × V → Type ι) where
  All-lookup_head :
      (k j : K) (v w : V) (m : Map K V)
      → P (j, w)
      → (lookup k m ≡ some v → P (k, v))
      → lookup k ((j, w) ∷ m) ≡ some v
      → P (k, v)
  unfolding lookup
  All-lookup_head k j v w m h later e = elim (cmp-cases k j) [
    | inl same ↦ let here : w ≡ v = ground (arith, o.cmp_self k) in rw (same, ← here) h
    | inr other ↦ later (ground (arith, o.cmp-eq k j))
  ]

  pub All-lookup : (k : K) {v : V} (m : Map K V) → All P m → lookup k m ≡ some v → P (k, v)
  All-lookup k [] h e = unfold lookup in cc
  All-lookup k {v} ((j, w) ∷ m) h e = All-lookup_head k j v w m h.0 (All-lookup k m h.1) e

  pub All-insert : (k : K) (v : V) (m : Map K V) → P (k, v) → All P m → All P (insert k v m)
  unfolding insert
  All-insert k v [] p h = (p, tt)
  All-insert k v ((j, w) ∷ m) p h = ground (arith, All-insert k v m p h.1)

  pub All-remove : (k : K) (m : Map K V) → All P m → All P (remove k m)
  unfolding remove
  All-remove k [] h = tt
  All-remove k ((j, w) ∷ m) h = ground (arith, All-remove k m h.1)

-- What an optional entry counts for.
abbrev pub weight {κ} : {V : Type κ} → (V → ℕ) → Option V → ℕ
weight f none = 0
weight f (some v) = f v

module _ {ℓ κ} {K : Type ℓ} {V : Type κ} (f : V → ℕ) where
  unfoldable pub sum_by : Map K V → ℕ
  sum_by [] = 0
  sum_by ((j, v) ∷ m) = f v + sum_by m

module _ {ℓ κ} {K : Type ℓ} {V : Type κ} ⦃o : Ord K⦄ (f : V → ℕ) where
  pub sum_by-insert :
      (k : K) (v : V) (m : Map K V)
      → IsSorted m
      → sum_by f (insert k v m) + weight f (lookup k m) ≡ sum_by f m + f v
  unfolding sum_by insert lookup
  sum_by-insert k v [] h = omega arith
  sum_by-insert k v ((j, w) ∷ m) h = ground (
    arith,
    o.cmp-eq k j,
    Above-mono k j m,
    lookup_below k m,
    sum_by-insert k v m (IsSorted-of_Above j m h),
  )

  pub sum_by-lookup : (k : K) {v : V} (m : Map K V) → lookup k m ≡ some v → f v ≤ sum_by f m
  unfolding sum_by lookup
  sum_by-lookup k [] e = cc
  sum_by-lookup k {v} ((j, w) ∷ m) e = ground (arith, sum_by-lookup k {v = v} m)
