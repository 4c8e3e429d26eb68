-- ===== src/SealLogic/OfKey.antt =====
-- The queries of one slot in groups (ola_core/src/sequencer/io/seal_logic.rs,
-- sort_storage_access.rs).
use ola_os.Base.{
  ◌≡◌, ◌≢◌, refl, sym, ap, ap₂, ◌∙◌, inl, inr, true, false, Bool-cases, List, [], ◌∷◌, ◌++◌,
  append-nil, All,
}
use ola_os.Base.Map.{Set, contains}
use ola_os.Base.Map.Laws.{contains_head}
use ola_os.Base.Map.Count.{contains-cons_ne}
use ola_os.Types.Log.{StorageKey, storage_key_ord}
use ola_os.Dedup.Final.{same_key}
use ola_os.SortStorage.{ExtendedQuery}
use ola_os.SealLogic.History.{of_key, same_key-eq}
use ola_os.SealLogic.Slots.{slot_of, heads, IsGrouped, concat, true-false, same_key_self}

of_key-append :
    (k : StorageKey) (xs ys : List ExtendedQuery) → of_key k (xs ++ ys) ≡ of_key k xs ++ of_key k ys
of_key-append k [] ys = refl
of_key-append k (x ∷ xs) ys = elim (Bool-cases (same_key k (slot_of x))) [
  | inl h ↦ rw h (ap (λ l. x ∷ l) (of_key-append k xs ys))
  | inr h ↦ rw h (of_key-append k xs ys)
]

-- A group is what its slot has, and nothing of another one.
of_key_all :
    (k : StorageKey) (es : List ExtendedQuery) → All (λ f. slot_of f ≡ k) es → of_key k es ≡ es
of_key_all k [] h = refl
of_key_all k (e ∷ es) h =
    let same : same_key k (slot_of e) ≡ true = ap (same_key k) h.0 ∙ same_key_self k in
    rw same (ap (λ l. e ∷ l) (of_key_all k es h.1))

of_key_none :
    (k j : StorageKey) (es : List ExtendedQuery)
    → same_key k j ≡ false
    → All (λ f. slot_of f ≡ j) es
    → of_key k es ≡ []
of_key_none k j [] other h = refl
of_key_none k j (e ∷ es) other h =
    let same : same_key k (slot_of e) ≡ false = ap (same_key k) h.0 ∙ other in
    rw same (of_key_none k j es other h.1)

same_key_ne : (j k : StorageKey) → same_key j k ≡ false → j ≢ k
same_key_ne j k h e = true-false (sym (same_key_self j) ∙ ap (same_key j) e ∙ h)

same_key_other : (j k : StorageKey) → j ≢ k → same_key j k ≡ false
same_key_other j k h = elim (Bool-cases (same_key j k)) [
  | inl same ↦ absurd (h (same_key-eq j k same))
  | inr other ↦ other
]

another_key :
    (k j : StorageKey) (s : Set StorageKey)
    → contains k ((j, tt) ∷ s) ≡ false
    → same_key k j ≡ false
another_key k j s absent = elim (Bool-cases (same_key k j)) [
  | inl same ↦ absurd (
      true-false (
        sym (ap (λ i. contains i ((j, tt) ∷ s)) (same_key-eq k j same) ∙ contains_head j s)
        ∙ absent))
  | inr other ↦ other
]

-- A slot without a group has no queries.
pub of_key_absent :
    (k : StorageKey) (gs : List (List ExtendedQuery))
    → IsGrouped gs
    → contains k (heads gs) ≡ false
    → of_key k (concat gs) ≡ []
unfolding IsGrouped
of_key_absent k [] h absent = refl
of_key_absent k ([] ∷ gs) h absent = absurd h
of_key_absent k ((e ∷ es) ∷ gs) h absent =
    let other = another_key k (slot_of e) (heads gs) absent in
    of_key-append k (e ∷ es) (concat gs)
    ∙ ap₂ (λ xs ys. xs ++ ys) (of_key_none k (slot_of e) (e ∷ es) other (refl, h.0))
        (of_key_absent k gs h.2 (
          sym (contains-cons_ne k (slot_of e) (heads gs) (same_key_ne k (slot_of e) other))
          ∙ absent))

-- The first group is what its slot has, and other slots have none of it.
pub of_key_own :
    (e : ExtendedQuery) (es : List ExtendedQuery) (gs : List (List ExtendedQuery))
    → All (λ f. slot_of f ≡ slot_of e) es
    → of_key (slot_of e) (concat gs) ≡ []
    → of_key (slot_of e) (concat ((e ∷ es) ∷ gs)) ≡ e ∷ es
of_key_own e es gs own rest =
    of_key-append (slot_of e) (e ∷ es) (concat gs)
    ∙ ap₂ (λ xs ys. xs ++ ys) (of_key_all (slot_of e) (e ∷ es) (refl, own)) rest
    ∙ append-nil (e ∷ es)

pub of_key_other :
    (k : StorageKey) (e : ExtendedQuery) (es : List ExtendedQuery) (gs : List (List ExtendedQuery))
    → All (λ f. slot_of f ≡ slot_of e) es
    → k ≢ slot_of e
    → of_key k (concat ((e ∷ es) ∷ gs)) ≡ of_key k (concat gs)
of_key_other k e es gs own other =
    of_key-append k (e ∷ es) (concat gs)
    ∙ ap (λ xs. xs ++ of_key k (concat gs))
        (of_key_none k (slot_of e) (e ∷ es) (same_key_other k (slot_of e) other) (refl, own))
