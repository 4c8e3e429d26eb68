-- ===== src/SealLogic/Slots.antt =====
-- Queries that are in the order of their slots, in groups of one slot each
-- (ola_core/src/sequencer/io/seal_logic.rs, sort_storage_access.rs).
use ola_os.Base.{
  ◌≡◌, ◌≢◌, refl, sym, ap, subst, ◌∙◌, ◌⊎◌, inl, inr, true, false, Bool-cases, Option, none, some,
  List, [], ◌∷◌, ◌++◌, All, All-map, Ordering, arith,
}
use ola_os.Base.Map.{Set, Above, IsSorted}
use ola_os.Types.Log.{
  LogQuery, StorageKey, storage_key_ord, storage_key_cmp, storage_key_cmp_self, key_of,
}
use ola_os.Dedup.Final.{same_key}
use ola_os.SortStorage.{ExtendedQuery, same_slot, join_group, by_slot}
use ola_os.SealLogic.History.{same_key-eq}

abbrev pub slot_of : ExtendedQuery → StorageKey
slot_of e = key_of e.raw_query

-- The slot of one query is not after that of another.
abbrev pub NotAfter : ExtendedQuery → ExtendedQuery → Type 0
NotAfter e f = (storage_key_cmp (slot_of e) (slot_of f) ≡ Ordering.lt) ⊎ (slot_of e ≡ slot_of f)

unfoldable pub IsAscending : List ExtendedQuery → Type 0
IsAscending [] = Unit
IsAscending (e ∷ es) = All (NotAfter e) es × IsAscending es

-- The slots of the groups.
abbrev pub heads : List (List ExtendedQuery) → Set StorageKey
heads [] = []
heads ([] ∷ gs) = heads gs
heads ((e ∷ es) ∷ gs) = (slot_of e, tt) ∷ heads gs

-- Each group has one slot, and the slots ascend.
unfoldable pub IsGrouped : List (List ExtendedQuery) → Type 0
IsGrouped [] = Unit
IsGrouped ([] ∷ gs) = ⊥
IsGrouped ((e ∷ es) ∷ gs) =
    All (λ f. slot_of f ≡ slot_of e) es × Above (slot_of e) (heads gs) × IsGrouped gs

abbrev pub concat : List (List ExtendedQuery) → List ExtendedQuery
concat [] = []
concat (g ∷ gs) = g ++ concat gs

abbrev first_of : List (List ExtendedQuery) → Option ExtendedQuery
first_of ((e ∷ es) ∷ gs) = some e
first_of _ = none

abbrev pub OfShard : ExtendedQuery → Type 0
OfShard e = e.raw_query.shard_id ≡ 0

same_slot-eq :
    (a b : LogQuery)
    → a.shard_id ≡ 0
    → b.shard_id ≡ 0
    → same_slot a b ≡ same_key (key_of a) (key_of b)
unfolding same_slot key_of
same_slot-eq a b h k = ground arith

first-join_group :
    (e : ExtendedQuery) (gs : List (List ExtendedQuery)) → first_of (join_group e gs) ≡ some e
unfolding join_group
first-join_group e [] = refl
first-join_group e ([] ∷ gs) = refl
first-join_group e ((f ∷ fs) ∷ gs) = elim (Bool-cases (same_slot e.raw_query f.raw_query)) [
  | inl h ↦ rw h refl
  | inr h ↦ rw h refl
]

concat-join_group :
    (e : ExtendedQuery) (gs : List (List ExtendedQuery)) → concat (join_group e gs) ≡ e ∷ concat gs
unfolding join_group
concat-join_group e [] = refl
concat-join_group e ([] ∷ gs) = refl
concat-join_group e ((f ∷ fs) ∷ gs) = elim (Bool-cases (same_slot e.raw_query f.raw_query)) [
  | inl h ↦ rw h refl
  | inr h ↦ rw h refl
]

pub true-false : true ≢ false
true-false e = cc

pub same_key_self : (k : StorageKey) → same_key k k ≡ true
same_key_self k = ground (arith, storage_key_cmp_self k)

apart :
    (e f : ExtendedQuery)
    → NotAfter e f
    → same_key (slot_of e) (slot_of f) ≡ false
    → storage_key_cmp (slot_of e) (slot_of f) ≡ Ordering.lt
apart e f (inl lt) h = lt
apart e f (inr same) h =
    absurd (true-false (sym (ap (same_key (slot_of e)) (sym same) ∙ same_key_self (slot_of e)) ∙ h))

join_group-IsGrouped :
    (e : ExtendedQuery) (gs : List (List ExtendedQuery))
    → OfShard e
    → All OfShard (concat gs)
    → ((f : ExtendedQuery) → first_of gs ≡ some f → NotAfter e f)
    → IsGrouped gs
    → IsGrouped (join_group e gs)
unfolding join_group IsGrouped
join_group-IsGrouped e [] shard shards before h = (tt, tt, tt)
join_group-IsGrouped e ([] ∷ gs) shard shards before h = absurd h
join_group-IsGrouped e ((f ∷ fs) ∷ gs) shard shards before (same, above, rest) =
    elim (Bool-cases (same_slot e.raw_query f.raw_query)) [
      | inl h ↦
          let key : slot_of e ≡ slot_of f =
            same_key-eq (slot_of e) (slot_of f)
              (sym (same_slot-eq e.raw_query f.raw_query shard shards.0) ∙ h) in
          rw h (
            (sym key, All-map (λ g k. k ∙ sym key) fs same),
            subst (λ k. Above k (heads gs)) (sym key) above,
            rest,
          )
      | inr h ↦ rw h (
        tt,
        (
          apart e f (before f refl) (sym (same_slot-eq e.raw_query f.raw_query shard shards.0) ∙ h),
          above,
        ),
        (same, above, rest),
      )
    ]

pub concat-by_slot : (es : List ExtendedQuery) → concat (by_slot es) ≡ es
unfolding by_slot
concat-by_slot [] = refl
concat-by_slot (e ∷ es) = concat-join_group e (by_slot es) ∙ ap (λ l. e ∷ l) (concat-by_slot es)

none-some : {A : Type 0} {a : A} → none ≢ some a
none-some e = cc

some_inj : {A : Type 0} {a b : A} → some a ≡ some b → a ≡ b
some_inj e = cc

by_slot_before :
    (e : ExtendedQuery) (es : List ExtendedQuery)
    → All (NotAfter e) es
    → (f : ExtendedQuery) → first_of (by_slot es) ≡ some f
    → NotAfter e f
unfolding by_slot
by_slot_before e [] h f k = absurd (none-some k)
by_slot_before e (g ∷ es) h f k =
    subst (NotAfter e) (some_inj (sym (first-join_group g (by_slot es)) ∙ k)) h.0

pub by_slot-IsGrouped :
    (es : List ExtendedQuery) → All OfShard es → IsAscending es → IsGrouped (by_slot es)
unfolding by_slot IsAscending IsGrouped
by_slot-IsGrouped [] shards h = tt
by_slot-IsGrouped (e ∷ es) shards h =
    join_group-IsGrouped e (by_slot es) shards.0
      (subst (All OfShard) (sym (concat-by_slot es)) shards.1) (by_slot_before e es h.0)
      (by_slot-IsGrouped es shards.1 h.1)

pub heads-IsSorted : (gs : List (List ExtendedQuery)) → IsGrouped gs → IsSorted (heads gs)
unfolding IsGrouped
heads-IsSorted [] h = tt
heads-IsSorted ([] ∷ gs) h = absurd h
heads-IsSorted ((e ∷ es) ∷ gs) h = h.1
