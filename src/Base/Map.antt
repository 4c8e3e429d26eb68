-- ===== src/Base/Map.antt =====
-- `HashMap`, `BTreeMap`, `HashSet` and `BTreeSet` as lists in ascending key order, so that equal
-- maps are equal lists. (The iteration order of a hash map is unspecified in Rust; here it is the
-- key order.) A set is a map to the unit type.
pub mod Laws
pub mod Sorted
pub mod Entries
pub mod Last
pub mod Count
use ola_os.Base.Tests.{is_some}
use ola_os.Base.Order.{Ord}
use Prim.Native.Nat.{Ordering}
use mathlib.Core.Path.{◌≡◌}
use mathlib.Core.Bool.{Bool}
use mathlib.Core.Option.{Option, none, some}
use mathlib.Core.List.{List, [], ◌∷◌, map}

abbrev pub Map {ℓ κ} : Type ℓ → Type κ → Type (ℓ ⊔ κ)
Map K V = List (K × V)

abbrev pub Set {ℓ} : Type ℓ → Type ℓ
Set K = Map K (Unit {0})

module _ {ℓ κ} {K : Type ℓ} {V : Type κ} where
  unfoldable pub keys : Map K V → List K
  keys m = map (λ e. e.0) m

module _ {ℓ κ} {K : Type ℓ} {V : Type κ} ⦃o : Ord K⦄ where
  unfoldable pub lookup : K → Map K V → Option V
  lookup k [] = none
  lookup k ((j, v) ∷ m) = elim (o.cmp k j) [ Ordering.eq ↦ some v | _ ↦ lookup k m ]

  unfoldable pub insert : K → V → Map K V → Map K V
  insert k v [] = (k, v) ∷ []
  insert k v ((j, w) ∷ m) = elim (o.cmp k j) [
    | Ordering.lt ↦ (k, v) ∷ (j, w) ∷ m
    | Ordering.eq ↦ (k, v) ∷ m
    | Ordering.gt ↦ (j, w) ∷ insert k v m
  ]

  unfoldable pub remove : K → Map K V → Map K V
  remove k [] = []
  remove k ((j, w) ∷ m) = elim (o.cmp k j) [ Ordering.eq ↦ m | _ ↦ (j, w) ∷ remove k m ]

  -- The keys of the map lie above `k`, in ascending order.
  abbrev pub Above : K → Map K V → Type 0
  Above k [] = Unit
  Above k ((j, w) ∷ m) = (o.cmp k j ≡ Ordering.lt) × Above j m

  abbrev pub IsSorted : Map K V → Type 0
  IsSorted [] = Unit
  IsSorted ((j, w) ∷ m) = Above j m

module _ {ℓ} {K : Type ℓ} ⦃o : Ord K⦄ where
  -- `contains`, and `get(..).is_some()`
  unfoldable pub contains : K → Set K → Bool
  unfolding lookup
  contains k s = is_some (lookup k s)

  unfoldable pub add : K → Set K → Set K
  unfolding insert
  add k s = insert k tt s

  -- `split_off`: the keys that stay, and those at `k` and above that are taken.
  unfoldable pub below : K → Set K → Set K
  below k [] = []
  below k ((j, u) ∷ s) = elim (o.cmp j k) [ Ordering.lt ↦ (j, u) ∷ below k s | _ ↦ below k s ]

  unfoldable pub from : K → Set K → Set K
  from k [] = []
  from k ((j, u) ∷ s) = elim (o.cmp j k) [ Ordering.lt ↦ from k s | _ ↦ (j, u) ∷ from k s ]
