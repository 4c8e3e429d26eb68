-- ===== src/RocksdbStorage/Follows.antt =====
-- The copy follows the batches of Postgres (state/src/rocksdb.rs).
use ola_os.Base.{
  ℕ, zero, suc, ◌+◌, ◌-◌, ◌/◌, ◌%◌, ◌<◌, ◌≤◌, ◌≡◌, ◌≢◌, refl, sym, ap, ◌∙◌, subst, inl, inr, Bool,
  true, false, not, ◌||◌, Bool-cases, Option, none, some, List, [], ◌∷◌, returns, assert, ◌>>=◌,
  ◌>>◌, ◌==◌, leb, length, is_some, if◌then◌else◌, arith,
}
use ola_os.Base.Words.{u32_mod}
use ola_os.Base.Map.{Map, lookup, insert, IsSorted}
use ola_os.Base.Map.Laws.{
  lookup-insert_self, lookup-insert_ne, lookup_head, lookup_tail, lookup_below, IsSorted-of_Above,
  cmp-cases,
}
use ola_os.Base.Order.{nat_ord}
use ola_os.Convert.Bytes.{space}
use ola_os.Types.Log.{StorageKey, storage_key_ord}
use ola_os.RocksdbStorage.{
  RocksdbStorage, InMemoryStorage, empty_patch, to_le_bytes, from_le_bytes, serialize_block_number,
  deserialize_block_number, l1_batch_number, store_factory_deps, store_factory_dep, or_zero,
  read_value_inner, read_value, is_write_initial, process_transaction_logs, put_state, save,
  load_batch, load_batches, update_from_postgres,
}

-- A value that a batch writes: zeros are kept only where there is a value.
abbrev kept : Option ℕ → Option ℕ → Option ℕ
kept none old = none
kept (some v) old = if not (v == 0) || is_some old then some v else none

abbrev or_old : Option ℕ → Option ℕ → Option ℕ
or_old none old = old
or_old (some v) old = some v

module _ (hashed_key : StorageKey → ℕ) where
  -- Whether a batch's value is kept.
  abbrev is_kept : ℕ → StorageKey → RocksdbStorage → Bool
  is_kept v k s = not (v == 0) || is_some (read_value_inner hashed_key k s)

  process_own :
      (s : RocksdbStorage) (updates rest : Map StorageKey ℕ) (k : StorageKey) (v : ℕ)
      → lookup k rest ≡ kept (lookup k updates) (read_value_inner hashed_key k s)
      → lookup k updates ≡ none
      → lookup k (if is_kept v k s then insert k v rest else rest)
        ≡ kept (some v) (read_value_inner hashed_key k s)
  process_own s updates rest k v h absent = elim (Bool-cases (is_kept v k s)) [
    | inl e ↦ rw e (lookup-insert_self k v rest)
    | inr e ↦ rw e (h ∙ ap (λ o. kept o (read_value_inner hashed_key k s)) absent)
  ]

  process_other :
      (b : Bool) (rest : Map StorageKey ℕ) (k j : StorageKey) (v : ℕ)
      → k ≢ j
      → lookup k (if b then insert j v rest else rest) ≡ lookup k rest
  process_other true rest k j v e = lookup-insert_ne k j v rest e
  process_other false rest k j v e = refl

  lookup-process :
      (s : RocksdbStorage) (updates : Map StorageKey ℕ) (k : StorageKey)
      → s.pending_patch.state ≡ []
      → IsSorted updates
      → lookup k (process_transaction_logs hashed_key s updates)
        ≡ kept (lookup k updates) (read_value_inner hashed_key k s)
  unfolding process_transaction_logs
  lookup-process s [] k nothing sorted = unfold lookup in ap (lookup k) nothing
  lookup-process s ((j, v) ∷ updates) k nothing sorted =
      let tail = process_transaction_logs hashed_key s updates in
      let rest : (i : StorageKey)
          → lookup i tail ≡ kept (lookup i updates) (read_value_inner hashed_key i s) =
        λ i. lookup-process s updates i nothing (IsSorted-of_Above j updates sorted) in
      elim (cmp-cases k j) [
        | inl e ↦
            subst
              (λ i.
                lookup i (if is_kept v j s then insert j v tail else tail)
                ≡ kept (lookup i ((j, v) ∷ updates)) (read_value_inner hashed_key i s))
              (sym e)
              (process_own s updates tail j v (rest j) (lookup_below j updates sorted)
                ∙ sym
                    (ap (λ o. kept o (read_value_inner hashed_key j s)) (lookup_head j v updates)))
        | inr e ↦
            process_other (is_kept v j s) tail k j v e
            ∙ rest k
            ∙ sym (ap (λ o. kept o (read_value_inner hashed_key k s)) (lookup_tail k j v updates e))
      ]

  module _ (inj : (i j : StorageKey) → hashed_key i ≡ hashed_key j → i ≡ j) where
    lookup-put_state :
        (updates : Map StorageKey ℕ) (db : Map ℕ ℕ) (k : StorageKey)
        → lookup (hashed_key k) (put_state hashed_key updates db)
          ≡ or_old (lookup k updates) (lookup (hashed_key k) db)
    unfolding put_state
    lookup-put_state [] db k = unfold lookup in refl
    lookup-put_state ((j, v) ∷ updates) db k = elim (cmp-cases k j) [
      | inl e ↦
          subst
            (λ i.
              lookup (hashed_key i) (insert (hashed_key j) v (put_state hashed_key updates db))
              ≡ or_old (lookup i ((j, v) ∷ updates)) (lookup (hashed_key i) db))
            (sym e)
            (lookup-insert_self (hashed_key j) v (put_state hashed_key updates db)
              ∙ sym (ap (λ o. or_old o (lookup (hashed_key j) db)) (lookup_head j v updates)))
      | inr e ↦
          lookup-insert_ne (hashed_key k) (hashed_key j) v (put_state hashed_key updates db)
            (λ h. e (inj k j h))
          ∙ lookup-put_state updates db k
          ∙ sym (ap (λ o. or_old o (lookup (hashed_key k) db)) (lookup_tail k j v updates e))
    ]

abbrev pub is_nonzero : Option ℕ → Bool
is_nonzero none = false
is_nonzero (some v) = not (v == 0)

abbrev pub or_older : Option ℕ → ℕ → ℕ
or_older none old = old
or_older (some v) old = v

-- The value of a slot after the batches below a number, and whether one of them made it not zero.
abbrev pub replay : (ℕ → Map StorageKey ℕ) → StorageKey → ℕ → ℕ
replay touched k zero = 0
replay touched k (suc n) = or_older (lookup k (touched n)) (replay touched k n)

abbrev pub is_written : (ℕ → Map StorageKey ℕ) → StorageKey → ℕ → Bool
is_written touched k zero = false
is_written touched k (suc n) = is_nonzero (lookup k (touched n)) || is_written touched k n

le_bytes : (w n : ℕ) → n < space w → from_le_bytes (to_le_bytes w n) ≡ n
le_bytes zero n h = omega arith
le_bytes (suc w) n h = let rest = le_bytes w (n / 256) (omega arith) in omega (arith, rest)

length-to_le_bytes : (w n : ℕ) → length (to_le_bytes w n) ≡ w
length-to_le_bytes zero n = refl
length-to_le_bytes (suc w) n = ap suc (length-to_le_bytes w (n / 256))

deserialize-serialize_number :
    (n : ℕ) → n < u32_mod → deserialize_block_number (serialize_block_number n) ≡ returns n
unfolding deserialize_block_number serialize_block_number
deserialize-serialize_number n h = ap returns (le_bytes 4 n (omega arith))

not_inj : (a b : Bool) → not a ≡ not b → a ≡ b
not_inj true true h = refl
not_inj true false h = cc
not_inj false true h = cc
not_inj false false h = refl

module _ (hashed_key : StorageKey → ℕ) (touched_slots : ℕ → Map StorageKey ℕ) where
  -- The copy has the first batches, and nothing pending.
  pub record Follows (n : ℕ) (s : RocksdbStorage) : Type 0 where
    pub number : l1_batch_number s ≡ returns n
    pub values : (k : StorageKey) → read_value hashed_key k s ≡ replay touched_slots k n
    pub initial :
        (k : StorageKey) → is_write_initial hashed_key k s ≡ not (is_written touched_slots k n)
    pub nothing : s.pending_patch ≡ empty_patch

  -- What one more batch does to a slot.
  or_zero-kept :
      (new old : Option ℕ) → or_zero (or_old (kept new old) old) ≡ or_older new (or_zero old)
  or_zero-kept none old = refl
  or_zero-kept (some zero) none = refl
  or_zero-kept (some zero) (some w) = refl
  or_zero-kept (some (suc v)) old = ground arith

  is_some-kept :
      (new old : Option ℕ) → is_some (or_old (kept new old) old) ≡ (is_nonzero new || is_some old)
  is_some-kept none old = refl
  is_some-kept (some zero) none = refl
  is_some-kept (some zero) (some w) = refl
  is_some-kept (some (suc v)) old = ground arith

  module _ (inj : (i j : StorageKey) → hashed_key i ≡ hashed_key j → i ≡ j)
      (factory_deps : ℕ → Map ℕ (List ℕ)) (unique : (n : ℕ) → IsSorted (touched_slots n)) where
    store_deps-state :
        (deps : List (ℕ × List ℕ)) (p : InMemoryStorage)
        → (store_factory_deps deps p).state ≡ p.state
    unfolding store_factory_dep
    store_deps-state [] p = refl
    store_deps-state ((hash, code) ∷ deps) p = store_deps-state deps (store_factory_dep hash code p)

    load_batch-inner :
        (n : ℕ) (s : RocksdbStorage) (k : StorageKey)
        → s.pending_patch ≡ empty_patch
        → read_value_inner hashed_key k (load_batch hashed_key touched_slots factory_deps n s)
          ≡ or_old
              (kept (lookup k (touched_slots n)) (read_value_inner hashed_key k s))
              (read_value_inner hashed_key k s)
    unfolding load_batch save read_value_inner
    load_batch-inner n s k nothing =
        let updates = process_transaction_logs hashed_key s (touched_slots n) in
        ap (λ m. lookup (hashed_key k) (put_state hashed_key m s.db.state))
          (store_deps-state (factory_deps n) (record s.pending_patch { state = updates }))
        ∙ lookup-put_state hashed_key inj updates s.db.state k
        ∙ ap (λ o. or_old o (lookup (hashed_key k) s.db.state))
            (lookup-process hashed_key s (touched_slots n) k (ap (λ p. p.state) nothing) (unique n))

    load_batch-Follows :
        (n : ℕ) (s : RocksdbStorage)
        → n + 1 < u32_mod
        → Follows n s
        → Follows (suc n) (load_batch hashed_key touched_slots factory_deps n s)
    unfolding load_batch save l1_batch_number read_value is_write_initial
    load_batch-Follows n s small h =
        let wrapped : (n + 1) % u32_mod ≡ suc n = omega arith in
        record {
          number =
              ap (λ i. deserialize_block_number (serialize_block_number i)) wrapped
              ∙ deserialize-serialize_number (suc n) (omega arith);
          values = λ k.
              ap or_zero (load_batch-inner n s k h.nothing)
              ∙ or_zero-kept (lookup k (touched_slots n)) (read_value_inner hashed_key k s)
              ∙ ap (or_older (lookup k (touched_slots n))) (h.values k);
          initial = λ k.
              ap (λ o. not (is_some o)) (load_batch-inner n s k h.nothing)
              ∙ ap not (
                  is_some-kept (lookup k (touched_slots n)) (read_value_inner hashed_key k s)
                  ∙ ap (λ b. is_nonzero (lookup k (touched_slots n)) || b)
                      (not_inj (is_some (read_value_inner hashed_key k s))
                        (is_written touched_slots k n) (h.initial k)));
          nothing = refl;
        }

    load_batches-Follows :
        (m n : ℕ) (s : RocksdbStorage)
        → n + m < u32_mod
        → Follows n s
        → Follows (n + m) (load_batches hashed_key touched_slots factory_deps m n s)
    unfolding load_batches
    load_batches-Follows zero n s small h =
        let e : n ≡ n + 0 = omega arith in subst (λ i. Follows i s) e h
    load_batches-Follows (suc m) n s small h =
        let e : (n + 1) + m ≡ n + suc m = omega arith in
        let e' : suc n ≡ n + 1 = omega arith in
        let next = load_batch hashed_key touched_slots factory_deps n s in
        subst (λ i. Follows i (load_batches hashed_key touched_slots factory_deps m (n + 1) next)) e
          (load_batches-Follows m (n + 1) next (omega arith)
            (subst (λ i. Follows i next) e' (load_batch-Follows n s (omega arith) h)))

-- If the hash of slots is one to one, a copy that has the batches below its number does not panic
-- when it is updated to a sealed batch that is not further back than the one before its number; it
-- then has all batches up to that one. Having them means that every slot reads as the last of them
-- that touched it left it, or as zero, that a write is initial exactly if none of them made the
-- slot's value not zero, that the next number is stored, and that nothing is pending.
pub update_from_postgres-Follows :
    (hashed_key : StorageKey → ℕ) (touched_slots : ℕ → Map StorageKey ℕ)
    (factory_deps : ℕ → Map ℕ (List ℕ)) (latest n : ℕ) (s : RocksdbStorage)
    → ((i j : StorageKey) → hashed_key i ≡ hashed_key j → i ≡ j)
    → ((b : ℕ) → IsSorted (touched_slots b))
    → Follows hashed_key touched_slots n s
    → n ≤ latest + 1
    → latest + 1 < u32_mod
    → (t : RocksdbStorage) × (update_from_postgres hashed_key touched_slots factory_deps latest s
        ≡ returns t)
      × Follows hashed_key touched_slots (latest + 1) t
unfolding update_from_postgres
update_from_postgres-Follows hashed_key touched_slots factory_deps latest n s inj unique h reached
      small =
    let t = load_batches hashed_key touched_slots factory_deps (latest + 1 - n) n s in
    let allowed : leb n (latest + 1) ≡ true = ground arith in
    let all : n + (latest + 1 - n) ≡ latest + 1 = omega arith in
    (
      t,
      ap
            (λ o. o >>= λ i.
              assert (leb i (latest + 1))
              >> returns (load_batches hashed_key touched_slots factory_deps (latest + 1 - i) i s))
            h.number
          ∙ ap (λ b. assert b >> returns t) allowed,
      subst (λ i. Follows hashed_key touched_slots i t) all
          (load_batches-Follows hashed_key touched_slots inj factory_deps unique (latest + 1 - n) n
            s (omega arith) h),
    )
