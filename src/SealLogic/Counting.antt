-- ===== src/SealLogic/Counting.antt =====
-- How many net writes the groups come to (ola_core/src/sequencer/io/sort_storage_access.rs).
use ola_os.Base.{
  ℕ, ◌+◌, ◌≡◌, ◌≢◌, refl, sym, ap, ap₂, subst, ◌∙◌, Bool, true, false, not, List, [], ◌∷◌, ◌++◌,
  returns, length, ◌==◌, arith, if◌then◌else◌,
}
use ola_os.Base.Map.{contains}
use ola_os.Base.Map.Laws.{contains_head}
use ola_os.Base.Map.Count.{count, contains-cons_ne, contains_below}
use ola_os.Types.Log.{LogQuery, StorageKey, storage_key_ord}
use ola_os.SortStorage.{
  ExtendedQuery, deduplicate_slot, deduplicate_slots, create_partially_filled_from_fields,
}
use ola_os.SortStorage.Slot.{
  Cell, done, read, write, net_query, reads_at_zero, deduplicate_slot-Cell,
}
use ola_os.SealLogic.{filter}
use ola_os.SealLogic.Batch.{is_write}
use ola_os.SealLogic.History.{of_key}
use ola_os.SealLogic.Slots.{slot_of, heads, IsGrouped, concat, true-false}
use ola_os.SealLogic.OfKey.{of_key_own, of_key_other, of_key_absent}

-- The queries of a slot are those of a cell between two values.
abbrev pub IsHistory :
    (StorageKey → ℕ) → (StorageKey → ℕ) → StorageKey → List ExtendedQuery → Type 0
IsHistory initial final k es =
    (s : List ExtendedQuery) × Cell 0 k.account k.key (initial k) [] es (final k) s

abbrev pub changes : (StorageKey → ℕ) → (StorageKey → ℕ) → StorageKey → Bool
changes initial final k = not (initial k == final k)

writes-append :
    (xs ys : List LogQuery)
    → length (filter is_write (xs ++ ys))
      ≡ length (filter is_write xs) + length (filter is_write ys)
writes-append [] ys = omega arith
writes-append (x ∷ xs) ys = ground (arith, writes-append xs ys)

net_query-writes :
    (shard address slot initial c : ℕ) (s : List ExtendedQuery) (at_zero : Bool)
    → length (filter is_write (net_query shard address slot initial c s at_zero))
      ≡ (if not (initial == c) then 1 else 0)
unfolding net_query create_partially_filled_from_fields
net_query-writes shard address slot initial c s at_zero = ground arith

first_value :
    {shard address slot c c' : ℕ} {e : ExtendedQuery} {es s : List ExtendedQuery}
    → Cell shard address slot c [] (e ∷ es) c' s
    → e.raw_query.read_value ≡ c
first_value (read _ _ _ _ _ _ here r v cell) = v
first_value (write _ _ _ _ _ _ here r w v cell) = v

no_change :
    {shard address slot c c' : ℕ} {s : List ExtendedQuery}
    → Cell shard address slot c [] [] c' s
    → c' ≡ c
no_change (done c s) = refl

slot_writes :
    (initial final : StorageKey → ℕ) (k : StorageKey) (e : ExtendedQuery) (es : List ExtendedQuery)
    → IsHistory initial final k (e ∷ es)
    → (D : List LogQuery) × (deduplicate_slot (e ∷ es) ≡ returns D)
      × (length (filter is_write D) ≡ (if changes initial final k then 1 else 0))
slot_writes initial final k e es (s, cell) =
    let starts = first_value cell in
    let own : Cell 0 k.account k.key e.raw_query.read_value [] (e ∷ es) (final k) s =
      subst (λ v. Cell 0 k.account k.key v [] (e ∷ es) (final k) s) (sym starts) cell in
    (
      net_query 0 k.account k.key e.raw_query.read_value (final k) s (reads_at_zero 0 (e ∷ es)),
      deduplicate_slot-Cell 0 k.account k.key e es s (final k) own,
      net_query-writes 0 k.account k.key e.raw_query.read_value (final k) s
            (reads_at_zero 0 (e ∷ es))
          ∙ ap (λ v. if not (v == final k) then 1 else 0) starts,
    )

module _ (initial final : StorageKey → ℕ) where
  -- The groups are deduplicated without a failed assertion, into as many net writes as there are
  -- slots whose value changes.
  pub deduplicate_slots-writes :
      (gs : List (List ExtendedQuery))
      → IsGrouped gs
      → ((k : StorageKey)
          → contains k (heads gs) ≡ true
          → IsHistory initial final k (of_key k (concat gs)))
      → (D : List LogQuery) × (deduplicate_slots gs ≡ returns D)
        × (length (filter is_write D) ≡ count (changes initial final) (heads gs))
  unfolding deduplicate_slots count IsGrouped
  deduplicate_slots-writes [] h histories = ([], refl, refl)
  deduplicate_slots-writes ([] ∷ gs) h histories = absurd h
  deduplicate_slots-writes ((e ∷ es) ∷ gs) h histories =
      let k = slot_of e in
      let absent = contains_below k (heads gs) h.1 in
      let own = of_key_own e es gs h.0 (of_key_absent k gs h.2 absent) in
      let (D, ran, writes) =
        slot_writes initial final k e es
          (subst (IsHistory initial final k) own (histories k (contains_head k (heads gs)))) in
      let (rest, ran', writes') = deduplicate_slots-writes gs h.2 (λ j present.
        let other : j ≢ k =
          λ same. true-false (sym present ∙ ap (λ i. contains i (heads gs)) same ∙ absent) in
        subst (IsHistory initial final j) (of_key_other j e es gs h.0 other)
          (histories j (contains-cons_ne j k (heads gs) other ∙ present))) in
      (D ++ rest, rw (ran, ran') refl, writes-append D rest ∙ ap₂ (λ a b. a + b) writes writes')

  -- A slot without a group does not change.
  pub changes-absent :
      (gs : List (List ExtendedQuery)) (k : StorageKey)
      → IsGrouped gs
      → IsHistory initial final k (of_key k (concat gs))
      → contains k (heads gs) ≡ false
      → changes initial final k ≡ false
  changes-absent gs k h history absent =
      let (s, cell) = subst (IsHistory initial final k) (of_key_absent k gs h absent) history in
      let same = no_change cell in ground arith
