-- ===== src/SealLogic/History.antt =====
-- The history of one slot in the logs of a batch (ola_core/src/sequencer/io/seal_logic.rs), for the
-- two deduplications that sealing compares.
use ola_os.Base.{
  ℕ, ◌+◌, ◌%◌, ◌≡◌, ◌⊎◌, refl, sym, ap, ap₂, subst, ◌∙◌, inl, inr, Bool, true, false, not, ◌&&◌,
  Bool-cases, none, some, List, [], ◌∷◌, map, All, ◌==◌, if◌then◌else◌, arith,
}
use ola_os.Base.Words.{u32_mod}
use ola_os.Types.Log.{
  LogQuery, StorageLogQuery, StorageKey, key_of, storage_key_cmp-eq, value_after,
}
use ola_os.Dedup.Final.{same_key, writes_to, first_read, last_value, or_else, differs}
use ola_os.SortStorage.{ExtendedQuery, enumerate}
use ola_os.SortStorage.Slot.{Cell, IsHere, done, read, write}

abbrev pub raw : StorageLogQuery → LogQuery
raw log = log.log_query

-- A log as the executor makes it.
abbrev pub IsPlain : StorageLogQuery → Type 0
IsPlain log = (log.log_query.rollback ≡ false) × (log.log_query.shard_id ≡ 0)

-- The values of all slots after a log.
abbrev pub after : (StorageKey → ℕ) → StorageLogQuery → StorageKey → ℕ
after current log k = if writes_to k log then log.log_query.written_value else current k

-- Each log reads the value that its slot has.
unfoldable pub IsConsistent : (StorageKey → ℕ) → List StorageLogQuery → Type 0
IsConsistent current [] = Unit
IsConsistent current (log ∷ logs) =
    (log.log_query.read_value ≡ current (key_of log.log_query))
    × IsConsistent (after current log) logs

abbrev pub end_value : (StorageKey → ℕ) → List StorageLogQuery → StorageKey → ℕ
end_value current [] k = current k
end_value current (log ∷ logs) k = end_value (after current log) logs k

-- The queries of a slot.
abbrev pub of_key : StorageKey → List ExtendedQuery → List ExtendedQuery
of_key k [] = []
of_key k (e ∷ es) = if same_key k (key_of e.raw_query) then e ∷ of_key k es else of_key k es

pub same_key-eq : (j k : StorageKey) → same_key j k ≡ true → j ≡ k
same_key-eq j k h = ground (arith, storage_key_cmp-eq j k)

written_after : (q : LogQuery) → q.rollback ≡ false → value_after q ≡ q.written_value
unfolding value_after
written_after q h = rw h refl

and_true : (a b : Bool) → (a && b) ≡ true → (a ≡ true) × (b ≡ true)
and_true true b h = (refl, h)
and_true false b h = cc

-- What the in-flight deduplication goes by: either the slot is not written, or its first write read
-- the first value and its last one left the last value.
ends :
    (k : StorageKey) (current : StorageKey → ℕ) (logs : List StorageLogQuery)
    → All IsPlain logs
    → IsConsistent current logs
    → ((first_read k logs ≡ none)
        × (last_value k logs ≡ none)
        × (end_value current logs k ≡ current k))
      ⊎ ((first_read k logs ≡ some (current k))
          × (last_value k logs ≡ some (end_value current logs k)))
unfolding first_read last_value IsConsistent
ends k current [] plain h = inl (refl, refl, refl)
ends k current (log ∷ logs) plain h = elim (Bool-cases (writes_to k log)) [
  | inl own ↦
      let (writes, same) = and_true log.log_query.rw_flag (same_key k (key_of log.log_query)) own in
      let key : k ≡ key_of log.log_query = same_key-eq k (key_of log.log_query) same in
      let first : first_read k (log ∷ logs) ≡ some (current k) =
        rw own (ap some (h.0 ∙ ap current (sym key))) in
      let left : after current log k ≡ log.log_query.written_value = rw own refl in
      let mine : (if writes_to k log then some (value_after log.log_query) else none)
          ≡ some log.log_query.written_value =
        rw own (ap some (written_after log.log_query plain.0.0)) in
      elim (ends k (after current log) logs plain.1 h.1) [
        | inl never ↦ inr (first, ap₂ or_else never.1 mine ∙ ap some (sym (never.2 ∙ left)))
        | inr changed ↦ inr (
          first,
          ap (λ o. or_else o (if writes_to k log then some (value_after log.log_query) else none))
              changed.1,
        )
      ]
  | inr other ↦
      let left : after current log k ≡ current k = rw other refl in
      let mine : (if writes_to k log then some (value_after log.log_query) else none) ≡ none =
        rw other refl in
      let first : first_read k (log ∷ logs) ≡ first_read k logs = rw other refl in
      elim (ends k (after current log) logs plain.1 h.1) [
        | inl never ↦ inl (first ∙ never.0, ap₂ or_else never.1 mine, never.2 ∙ left)
        | inr changed ↦ inr (first ∙ changed.0 ∙ ap some left, ap₂ or_else changed.1 mine)
      ]
]

same_value : (v : ℕ) → not (v == v) ≡ false
same_value v = ground arith

pub differs-end :
    (k : StorageKey) (current : StorageKey → ℕ) (logs : List StorageLogQuery)
    → All IsPlain logs
    → IsConsistent current logs
    → differs (first_read k logs) (last_value k logs) ≡ not (current k == end_value current logs k)
differs-end k current logs plain h = elim (ends k current logs plain h) [
  | inl never ↦
      ap₂ differs never.0 never.1
      ∙ sym (ap (λ v. not (current k == v)) never.2 ∙ same_value (current k))
  | inr changed ↦ ap₂ differs changed.0 changed.1
]

and-false : (a b : Bool) → b ≡ false → (a && b) ≡ false
and-false true b h = h
and-false false b h = refl

-- The slot's queries are those of a storage cell, from the first value to the last one.
pub history-Cell :
    (k : StorageKey) (i : ℕ) (current : StorageKey → ℕ) (logs : List StorageLogQuery)
    (s : List ExtendedQuery)
    → All IsPlain logs
    → IsConsistent current logs
    → (s' : List ExtendedQuery) × Cell 0 k.account k.key
        (current k)
        s
        (of_key k (enumerate i (map raw logs)))
        (end_value current logs k)
        s'
unfolding IsConsistent enumerate
history-Cell k i current [] s plain h = (s, done (current k) s)
history-Cell k i current (log ∷ logs) s plain h =
    let e : ExtendedQuery = record { raw_query = raw log; extended_timestamp = i % u32_mod } in
    elim (Bool-cases (same_key k (key_of log.log_query))) [
      | inr other ↦
          let left : after current log k ≡ current k =
            rw (and-false log.log_query.rw_flag (same_key k (key_of log.log_query)) other) refl in
          let (s', cell) = history-Cell k (i + 1) (after current log) logs s plain.1 h.1 in
          (
            s',
            rw other (
                subst
                  (λ c.
                    Cell 0 k.account k.key c s (of_key k (enumerate (i + 1) (map raw logs)))
                      (end_value (after current log) logs k) s')
                  left cell),
          )
      | inl same ↦
          let key = same_key-eq k (key_of log.log_query) same in
          let here : IsHere 0 k.account k.key log.log_query = (
            plain.0.1,
            unfold key_of in sym (ap (λ j. j.account) key),
            unfold key_of in sym (ap (λ j. j.key) key),
          ) in
          let reads : log.log_query.read_value ≡ current k = h.0 ∙ ap current (sym key) in
          elim (Bool-cases log.log_query.rw_flag) [
            | inr is_read ↦
                let left : after current log k ≡ current k = rw is_read refl in
                let (s', cell) = history-Cell k (i + 1) (after current log) logs s plain.1 h.1 in
                (
                  s',
                  rw same (
                      read e (current k) (end_value (after current log) logs k) s s'
                        (of_key k (enumerate (i + 1) (map raw logs))) here is_read reads
                        (subst
                          (λ c.
                            Cell 0 k.account k.key c s (of_key k (enumerate (i + 1) (map raw logs)))
                              (end_value (after current log) logs k) s')
                          left cell)),
                )
            | inl is_write ↦
                let left : after current log k ≡ log.log_query.written_value =
                  ap₂ (λ a b. if a && b then log.log_query.written_value else current k) is_write
                    same in
                let (s', cell) =
                  history-Cell k (i + 1) (after current log) logs (e ∷ s) plain.1 h.1 in
                (
                  s',
                  rw same (
                      write e (current k) (end_value (after current log) logs k) s s'
                        (of_key k (enumerate (i + 1) (map raw logs))) here is_write plain.0.0 reads
                        (subst
                          (λ c.
                            Cell 0 k.account k.key c (e ∷ s)
                              (of_key k (enumerate (i + 1) (map raw logs)))
                              (end_value (after current log) logs k) s')
                          left cell)),
                )
          ]
    ]
