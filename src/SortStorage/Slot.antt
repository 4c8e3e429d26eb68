-- ===== src/SortStorage/Slot.antt =====
-- The history of one slot (ola_core/src/sequencer/io/sort_storage_access.rs), against a storage cell
-- with an undo log.
use ola_os.Base.{
  ℕ, suc, ◌+◌, ◌-◌, ◌≡◌, ◌⊎◌, inl, inr, refl, sym, ap, subst, ◌∙◌, Bool, true, false, not, ◌||◌,
  some, List, [], ◌∷◌, returns, ◌==◌, arith, is_empty, length, if◌then◌else◌,
}
use ola_os.Types.Log.{LogQuery}
use ola_os.SortStorage.{
  ExtendedQuery, StorageSlotHistoryKeeper, default_keeper, create_partially_filled_from_fields,
  note_read, note_first, undo_change, track, keep, keep_all, conclude, deduplicate_slot,
}

module _ (shard address slot : ℕ) where
  -- A query of the slot.
  abbrev pub IsHere : LogQuery → Type 0
  IsHere q = (q.shard_id ≡ shard) × (q.address ≡ address) × (q.key ≡ slot)

  -- The queries that a cell with an undo log makes, from one value and log to others: a read and a
  -- write see the current value, and an undo restores what the last write had replaced.
  pub data Cell
      : ℕ → List ExtendedQuery → List ExtendedQuery → ℕ → List ExtendedQuery → Type 0 where
    done : (c : ℕ) (s : List ExtendedQuery) → Cell c s [] c s
    read :
        (e : ExtendedQuery) (c c' : ℕ) (s s' es : List ExtendedQuery)
        → IsHere e.raw_query
        → e.raw_query.rw_flag ≡ false
        → e.raw_query.read_value ≡ c
        → Cell c s es c' s'
        → Cell c s (e ∷ es) c' s'
    write :
        (e : ExtendedQuery) (c c' : ℕ) (s s' es : List ExtendedQuery)
        → IsHere e.raw_query
        → e.raw_query.rw_flag ≡ true
        → e.raw_query.rollback ≡ false
        → e.raw_query.read_value ≡ c
        → Cell e.raw_query.written_value (e ∷ s) es c' s'
        → Cell c s (e ∷ es) c' s'
    undo :
        (e p : ExtendedQuery) (c c' : ℕ) (s s' es : List ExtendedQuery)
        → IsHere e.raw_query
        → e.raw_query.rw_flag ≡ true
        → e.raw_query.rollback ≡ true
        → e.raw_query.read_value ≡ p.raw_query.read_value
        → e.raw_query.written_value ≡ p.raw_query.written_value
        → Cell p.raw_query.read_value s es c' s'
        → Cell c (p ∷ s) (e ∷ es) c' s'

  -- The undo log leads from the current value back to the initial one.
  abbrev IsChained : ℕ → ℕ → List ExtendedQuery → Type 0
  IsChained initial c [] = c ≡ initial
  IsChained initial c (p ∷ s) =
      IsHere p.raw_query
      × (p.raw_query.written_value ≡ c)
      × IsChained initial p.raw_query.read_value s

-- Whether there is a read while as many writes as undos have come before it.
abbrev pub reads_at_zero : ℕ → List ExtendedQuery → Bool
reads_at_zero depth [] = false
reads_at_zero depth (e ∷ es) =
    let after_write = reads_at_zero (depth + 1) es in
    let after_undo = reads_at_zero (depth - 1) es in
    let after_read = reads_at_zero depth es in
    if e.raw_query.rw_flag
    then (if e.raw_query.rollback then after_undo else after_write)
    else (if depth == 0 then true else after_read)

-- The query that a slot's history comes to, by its first and its last value, the changes in force at
-- its end, and whether it was read while none was.
unfoldable pub net_query : ℕ → ℕ → ℕ → ℕ → ℕ → List ExtendedQuery → Bool → List LogQuery
unfolding create_partially_filled_from_fields
net_query shard address slot initial c s at_zero =
    if initial == c
    then (if at_zero || not (is_empty s)
        then create_partially_filled_from_fields shard address slot initial c false ∷ []
        else [])
    else create_partially_filled_from_fields shard address slot initial c true ∷ []

module _ (shard address slot initial : ℕ) where
  -- What the keeper holds of a cell's history.
  abbrev kept : ℕ → List ExtendedQuery → Bool → StorageSlotHistoryKeeper
  kept c s at_zero = record {
    initial_value = some initial;
    current_value = some c;
    changes_stack = s;
    did_read_at_depth_zero = at_zero;
  }

  keep_read :
      (e : ExtendedQuery) (c : ℕ) (s : List ExtendedQuery) (at_zero : Bool)
      → e.raw_query.rw_flag ≡ false
      → e.raw_query.read_value ≡ c
      → keep e (kept c s at_zero) ≡ returns (kept c s (is_empty s || at_zero))
  unfolding keep note_read note_first track
  keep_read e c [] at_zero r v = ground arith
  keep_read e c (p ∷ s) at_zero r v = ground arith

  keep_write :
      (e : ExtendedQuery) (c : ℕ) (s : List ExtendedQuery) (at_zero : Bool)
      → e.raw_query.rw_flag ≡ true
      → e.raw_query.rollback ≡ false
      → e.raw_query.read_value ≡ c
      → keep e (kept c s at_zero) ≡ returns (kept e.raw_query.written_value (e ∷ s) at_zero)
  unfolding keep note_read note_first track
  keep_write e c s at_zero r w v = ground arith

  keep_undo :
      (e p : ExtendedQuery) (c : ℕ) (s : List ExtendedQuery) (at_zero : Bool)
      → IsHere shard address slot e.raw_query
      → IsHere shard address slot p.raw_query
      → e.raw_query.rw_flag ≡ true
      → e.raw_query.rollback ≡ true
      → e.raw_query.read_value ≡ p.raw_query.read_value
      → e.raw_query.written_value ≡ p.raw_query.written_value
      → p.raw_query.written_value ≡ c
      → keep e (kept c (p ∷ s) at_zero) ≡ returns (kept p.raw_query.read_value s at_zero)
  unfolding keep note_read note_first track undo_change
  keep_undo e p c s at_zero here there r u v w top = ground arith

  zero_read :
      (e : ExtendedQuery) (s es : List ExtendedQuery) (at_zero : Bool)
      → e.raw_query.rw_flag ≡ false
      → ((is_empty s || at_zero) || reads_at_zero (length s) es)
        ≡ (at_zero || reads_at_zero (length s) (e ∷ es))
  zero_read e [] es true r = ground arith
  zero_read e [] es false r = ground arith
  zero_read e (p ∷ s) es true r = ground arith
  zero_read e (p ∷ s) es false r = ground arith

  zero_write :
      (e : ExtendedQuery) (s es : List ExtendedQuery) (at_zero : Bool)
      → e.raw_query.rw_flag ≡ true
      → e.raw_query.rollback ≡ false
      → (at_zero || reads_at_zero (suc (length s)) es)
        ≡ (at_zero || reads_at_zero (length s) (e ∷ es))
  zero_write e s es at_zero r w =
      let deeper : length s + 1 ≡ suc (length s) = omega arith in rw (r, w, deeper) refl

  zero_undo :
      (e : ExtendedQuery) (s es : List ExtendedQuery) (at_zero : Bool)
      → e.raw_query.rw_flag ≡ true
      → e.raw_query.rollback ≡ true
      → (at_zero || reads_at_zero (length s) es)
        ≡ (at_zero || reads_at_zero (suc (length s)) (e ∷ es))
  zero_undo e s es at_zero r u =
      let shallower : suc (length s) - 1 ≡ length s = omega arith in rw (r, u, shallower) refl

  -- The keeper follows the cell without a failed assertion.
  keep_all-Cell :
      (c c' : ℕ) (s s' es : List ExtendedQuery) (at_zero : Bool)
      → Cell shard address slot c s es c' s'
      → IsChained shard address slot initial c s
      → (keep_all es (kept c s at_zero)
          ≡ returns (kept c' s' (at_zero || reads_at_zero (length s) es)))
        × IsChained shard address slot initial c' s'
  unfolding keep_all
  keep_all-Cell c c' s s' es at_zero (done _ _) chained = (ground arith, chained)
  keep_all-Cell c c' s s' es at_zero (read e _ _ _ _ rest here r v cell) chained =
      let (ran, chained') = keep_all-Cell c c' s s' rest (is_empty s || at_zero) cell chained in
      (
        rw (keep_read e c s at_zero r v)
            (ran ∙ ap (λ z. returns (kept c' s' z)) (zero_read e s rest at_zero r)),
        chained',
      )
  keep_all-Cell c c' s s' es at_zero (write e _ _ _ _ rest here r w v cell) chained =
      let (ran, chained') =
        keep_all-Cell e.raw_query.written_value c' (e ∷ s) s' rest at_zero cell
          (here, refl, subst (λ i. IsChained shard address slot initial i s) (sym v) chained) in
      (
        rw (keep_write e c s at_zero r w v)
            (ran ∙ ap (λ z. returns (kept c' s' z)) (zero_write e s rest at_zero r w)),
        chained',
      )
  keep_all-Cell c c' s s' es at_zero (undo e p _ _ stack _ rest here r u v w cell) chained =
      let (ran, chained') =
        keep_all-Cell p.raw_query.read_value c' stack s' rest at_zero cell chained.2 in
      (
        rw (keep_undo e p c stack at_zero here chained.0 r u v w chained.1)
            (ran ∙ ap (λ z. returns (kept c' s' z)) (zero_undo e stack rest at_zero r u)),
        chained',
      )

  conclude-kept :
      (q : LogQuery) (c : ℕ) (s : List ExtendedQuery) (at_zero : Bool)
      → IsHere shard address slot q
      → IsChained shard address slot initial c s
      → conclude q (kept c s at_zero) ≡ returns (net_query shard address slot initial c s at_zero)
  unfolding conclude net_query
  conclude-kept q c [] true here chained = ground arith
  conclude-kept q c [] false here chained = ground arith
  conclude-kept q c (p ∷ s) at_zero here chained = ground arith

  keep_first :
      (e : ExtendedQuery)
      → e.raw_query.read_value ≡ initial
      → (e.raw_query.rw_flag ≡ false) ⊎ (e.raw_query.rollback ≡ false)
      → keep e default_keeper ≡ keep e (kept initial [] false)
  unfolding keep note_read note_first
  keep_first e v first = ground arith

-- The queries that a storage cell with an undo log makes never fail an assertion, and what they
-- come to is read off the cell: a net write if the value has changed; otherwise a protective read
-- if the cell was read while no change was in force, or if changes are in force at the end; and
-- nothing if all was undone unread.
pub deduplicate_slot-Cell :
    (shard address slot : ℕ) (e : ExtendedQuery) (es s : List ExtendedQuery) (c : ℕ)
    → Cell shard address slot e.raw_query.read_value [] (e ∷ es) c s
    → deduplicate_slot (e ∷ es)
      ≡ returns (net_query shard address slot e.raw_query.read_value c s (reads_at_zero 0 (e ∷ es)))
unfolding deduplicate_slot keep_all
deduplicate_slot-Cell shard address slot e es s c cell =
    let initial = e.raw_query.read_value in
    let (ran, chained) =
      keep_all-Cell shard address slot initial initial c [] s (e ∷ es) false cell refl in
    let (here, first) = first_query cell in
    rw (keep_first shard address slot initial e refl first, ran)
      (conclude-kept shard address slot initial e.raw_query c s (reads_at_zero 0 (e ∷ es)) here
        chained)
  where
    first_query :
        Cell shard address slot e.raw_query.read_value [] (e ∷ es) c s
        → IsHere shard address slot e.raw_query
          × ((e.raw_query.rw_flag ≡ false) ⊎ (e.raw_query.rollback ≡ false))
    first_query (read _ _ _ _ _ _ here r v cell) = (here, inl r)
    first_query (write _ _ _ _ _ _ here r w v cell) = (here, inr w)
