-- ===== src/SealLogic/Sorting.antt =====
-- What the parallel sort of the `rayon` crate does to the queries of a batch
-- (ola_core/src/sequencer/io/sort_storage_access.rs).
use Prim.Native.Nat.{Ordering}
use mathlib.Core.Logic.{∥∥₁_map}
use mathlib.Core.List.{Perm, Permᴰ}
use mathlib.Core.List.Perm
use native.Mathlib.Decide.{ℕ_discrete}
use ola_os.Base.{
  ℕ, ◌+◌, ◌≡◌, ◌≢◌, ◌⊎◌, refl, inl, inr, true, Bool-cases, List, [], ◌∷◌, map, All, leb, length,
  arith,
}
use ola_os.Base.Words.{u32_mod}
use ola_os.Types.Log.{StorageLogQuery, StorageKey, storage_key_cmp, storage_key_cmp-eq, key_of}
use ola_os.Dedup.Final.{same_key}
use ola_os.SortStorage.{ExtendedQuery, cmp_queries, enumerate}
use ola_os.SealLogic.History.{raw, of_key, IsPlain}
use ola_os.SealLogic.Slots.{slot_of, NotAfter, IsAscending, OfShard}
use ola_os.SealLogic.Stamps.{
  NotLater, IsWeak, All-Mem, Mem-All, one_order, of_key-Permᴰ, enumerate-IsStrict,
}

-- Ascending by a comparison: no query is greater than a later one.
unfoldable pub IsOrdered : List ExtendedQuery → Type 0
IsOrdered [] = Unit
IsOrdered (e ∷ es) = All (λ f. cmp_queries e f ≢ Ordering.gt) es × IsOrdered es

-- `par_sort_by` puts a list in the order of its comparison, and keeps all elements of it.
pub record IsSort (par_sort : List ExtendedQuery → List ExtendedQuery) : Type 0 where
  pub ordered : (es : List ExtendedQuery) → IsOrdered (par_sort es)
  pub reorders : (es : List ExtendedQuery) → Perm (par_sort es) es

ordering-cases : (o : Ordering) → (o ≡ Ordering.lt) ⊎ ((o ≡ Ordering.eq) ⊎ (o ≡ Ordering.gt))
ordering-cases Ordering.lt = inl refl
ordering-cases Ordering.eq = inr (inl refl)
ordering-cases Ordering.gt = inr (inr refl)

slot_after :
    (e f : ExtendedQuery)
    → OfShard e
    → OfShard f
    → storage_key_cmp (slot_of e) (slot_of f) ≡ Ordering.gt
    → cmp_queries e f ≡ Ordering.gt
unfolding key_of
slot_after e f shard shard' after = ground (arith, shard, shard', after)

slot_order :
    (e f : ExtendedQuery) → OfShard e → OfShard f → cmp_queries e f ≢ Ordering.gt → NotAfter e f
slot_order e f shard shard' h = elim (ordering-cases (storage_key_cmp (slot_of e) (slot_of f))) [
  | inl before ↦ inl before
  | inr (inl same) ↦ inr (storage_key_cmp-eq (slot_of e) (slot_of f) same)
  | inr (inr after) ↦ absurd (h (slot_after e f shard shard' after))
]

pub ordered-IsAscending : (es : List ExtendedQuery) → All OfShard es → IsOrdered es → IsAscending es
unfolding IsOrdered IsAscending
ordered-IsAscending [] shards h = tt
ordered-IsAscending (e ∷ es) shards h =
    (first e es shards.0 shards.1 h.0, ordered-IsAscending es shards.1 h.1)
  where
    first :
        (e : ExtendedQuery) (es : List ExtendedQuery)
        → OfShard e
        → All OfShard es
        → All (λ f. cmp_queries e f ≢ Ordering.gt) es
        → All (NotAfter e) es
    first e [] shard shards h = tt
    first e (f ∷ es) shard shards h =
        (slot_order e f shard shards.0 h.0, first e es shard shards.1 h.1)

NotLater-own :
    (k : StorageKey) (e f : ExtendedQuery)
    → OfShard e
    → OfShard f
    → same_key k (slot_of e) ≡ true
    → same_key k (slot_of f) ≡ true
    → cmp_queries e f ≢ Ordering.gt
    → NotLater e f
unfolding key_of
NotLater-own k e f shard shard' own own' h = ground (arith, shard, shard', own, own', h)

NotLater-all :
    (k : StorageKey) (e : ExtendedQuery) (es : List ExtendedQuery)
    → OfShard e
    → same_key k (slot_of e) ≡ true
    → All OfShard es
    → All (λ f. cmp_queries e f ≢ Ordering.gt) es
    → All (NotLater e) (of_key k es)
NotLater-all k e [] shard own shards h = tt
NotLater-all k e (f ∷ es) shard own shards h =
    let rest = NotLater-all k e es shard own shards.1 h.1 in
    elim (Bool-cases (same_key k (slot_of f))) [
      | inl own' ↦ rw own' (NotLater-own k e f shard shards.0 own own' h.0, rest)
      | inr other ↦ rw other rest
    ]

ordered-IsWeak :
    (k : StorageKey) (es : List ExtendedQuery)
    → All OfShard es
    → IsOrdered es
    → IsWeak (of_key k es)
unfolding IsOrdered
ordered-IsWeak k [] shards h = tt
ordered-IsWeak k (e ∷ es) shards h =
    let rest = ordered-IsWeak k es shards.1 h.1 in
    elim (Bool-cases (same_key k (slot_of e))) [
      | inl own ↦ rw own (NotLater-all k e es shards.0 own shards.1 h.0, rest)
      | inr other ↦ rw other rest
    ]

enumerate-OfShard :
    (i : ℕ) (logs : List StorageLogQuery)
    → All IsPlain logs
    → All OfShard (enumerate i (map raw logs))
unfolding enumerate
enumerate-OfShard i [] plain = tt
enumerate-OfShard i (log ∷ logs) plain = (plain.0.1, enumerate-OfShard (i + 1) logs plain.1)

-- The sort brings the queries of a batch into the order of their slots, and leaves the queries of
-- each slot in the order they have come in.
module _ (par_sort : List ExtendedQuery → List ExtendedQuery) (sort : IsSort par_sort)
    (logs : List StorageLogQuery) (plain : All IsPlain logs) where
  pub sorted-OfShard : All OfShard (par_sort (enumerate 0 (map raw logs)))
  sorted-OfShard = Mem-All (par_sort (enumerate 0 (map raw logs))) (λ f m.
      All-Mem {P = OfShard} (λ e. hlevel ℕ_discrete) (enumerate-OfShard 0 logs plain)
        ((Perm.mem_iff (sort.reorders (enumerate 0 (map raw logs)))).0 m))

  pub sorted-of_key :
      (k : StorageKey)
      → leb (length (map raw logs)) u32_mod ≡ true
      → of_key k (par_sort (enumerate 0 (map raw logs))) ≡ of_key k (enumerate 0 (map raw logs))
  sorted-of_key k bound =
      let xs = enumerate 0 (map raw logs) in
      one_order (of_key k xs) (of_key k (par_sort xs))
        (enumerate-IsStrict k 0 (map raw logs) (ground (arith, bound)))
        (ordered-IsWeak k (par_sort xs) sorted-OfShard (sort.ordered xs))
        (∥∥₁_map {B = Permᴰ (of_key k (par_sort xs)) (of_key k xs)} (sort.reorders xs)
          (λ d. of_key-Permᴰ k d))
