-- ===== src/Base/Map/Last.antt =====
-- The greatest key of a sorted set, and the set split at it.
use ola_os.Base.Lists.{last?}
use ola_os.Base.Order.{Ord}
use ola_os.Base.Map.{Set, keys, contains, remove, below, from, lookup, Above, IsSorted}
use Prim.Native.Nat.{Ordering}
use mathlib.Core.Path.{◌≡◌, refl}
use mathlib.Core.Logic.{◌⊎◌}
use mathlib.Core.Bool.{true}
use mathlib.Core.Option.{none, some}
use mathlib.Core.List.{[], ◌∷◌}
use native.Mathlib.Omega.{arith}

module _ {ℓ} {K : Type ℓ} ⦃o : Ord K⦄ where
  last-Above : (j p : K) (s : Set K) → Above j s → last? (keys s) ≡ some p → o.cmp j p ≡ Ordering.lt
  unfolding keys
  last-Above j p [] h e = cc
  last-Above j p ((k, u) ∷ []) h e = ground arith
  last-Above j p ((k, u) ∷ (i, v) ∷ s) h e =
      o.cmp_trans j k p h.0 (last-Above k p ((i, v) ∷ s) h.1 e)

  pub below_last :
      (p : K) (s : Set K) → IsSorted s → last? (keys s) ≡ some p → below p s ≡ remove p s
  unfolding below remove keys
  below_last p [] h e = refl
  below_last p ((j, u) ∷ []) h e = ground (arith, o.cmp_self p)
  below_last p ((j, u) ∷ (k, v) ∷ s) h e =
      ground (arith, last-Above j p ((k, v) ∷ s) h e, o.cmp-lt j p, below_last p ((k, v) ∷ s) h.1 e)

  pub from_last :
      (p : K) (s : Set K) → IsSorted s → last? (keys s) ≡ some p → from p s ≡ (p, tt) ∷ []
  unfolding from keys
  from_last p [] h e = cc
  from_last p ((j, u) ∷ []) h e = ground (arith, o.cmp_self p)
  from_last p ((j, u) ∷ (k, v) ∷ s) h e =
      ground (arith, last-Above j p ((k, v) ∷ s) h e, from_last p ((k, v) ∷ s) h.1 e)

  pub contains-last : (p : K) (s : Set K) → last? (keys s) ≡ some p → contains p s ≡ true
  unfolding contains keys lookup
  contains-last p [] e = cc
  contains-last p ((j, u) ∷ []) e = ground (arith, o.cmp_self p)
  contains-last p ((j, u) ∷ (k, v) ∷ s) e = ground (arith, contains-last p ((k, v) ∷ s) e)

  -- Every other key lies below the last one.
  pub last_greatest :
      (p q : K) (s : Set K)
      → IsSorted s
      → last? (keys s) ≡ some p
      → contains q s ≡ true
      → (q ≡ p) ⊎ (o.cmp q p ≡ Ordering.lt)
  unfolding contains keys lookup
  last_greatest p q [] h e c = cc
  last_greatest p q ((j, u) ∷ []) h e c = ground (arith, o.cmp-eq q j)
  last_greatest p q ((j, u) ∷ (k, v) ∷ s) h e c =
      ground
        (arith, o.cmp-eq q j, last-Above j p ((k, v) ∷ s) h e, last_greatest p q ((k, v) ∷ s) h.1 e)

  pub last-none : (s : Set K) → last? (keys s) ≡ none → s ≡ []
  unfolding keys
  last-none [] e = refl
  last-none ((j, u) ∷ []) e = cc
  last-none ((j, u) ∷ (k, v) ∷ s) e = ground (arith, last-none ((k, v) ∷ s) e)
