-- ===== src/SealLogic/Miniblock.antt =====
-- What sealing a miniblock of executed transactions writes
-- (ola_core/src/sequencer/io/seal_logic.rs).
use ola_os.Base.{
  ℕ, zero, suc, ◌+◌, ◌-◌, ◌%◌, ◌≤◌, ◌<◌, ◌≡◌, refl, true, false, Option, none, some, List, [], ◌∷◌,
  ◌++◌, map, Outcome, returns, panics, ltb, Bool-cases, inl, inr, length, is_empty, All, All-map,
  flat_map, if◌then◌else◌, arith,
}
use ola_os.Base.Words.{u32_mod}
use ola_os.Types.Tx.{hash, initiator_account}
use ola_os.Types.Log.{StorageLogQuery, StorageLog, from_log_query}
use ola_os.Types.Execution.{VmEvent, TransactionExecutionResult}
use ola_os.Updates.{MiniblockSealCommand}
use ola_os.SealLogic.{
  IncludedTxLocation, all_of, nth, tx_index_range, assert_valid_miniblock, transaction, log_owner,
  location, write_logs_of, extract_write_logs, extract_events, group_by_tx_location,
  miniblock_writes, seal_inner, seal,
}
use ola_os.SealLogic.Groups.{tag, owned, traverse-owned}

abbrev pub InRange : MiniblockSealCommand → ℕ → Type 0
InRange c i =
    (c.first_tx_index ≤ i) × (i < c.first_tx_index + length c.miniblock.executed_transactions)

-- Executed transactions, which have hashes, and only entries of theirs.
pub record IsSealable (c : MiniblockSealCommand) : Type 0 where
  pub executed : is_empty c.miniblock.executed_transactions ≡ false
  pub events : All (λ e. InRange c e.tx_index) c.miniblock.events
  pub logs : All (λ l. InRange c l.log_query.tx_number_in_block) c.miniblock.storage_logs
  pub hashed :
      All (λ r. (h : ℕ) × (hash r.transaction ≡ returns h)) c.miniblock.executed_transactions
  pub small : c.first_tx_index + length c.miniblock.executed_transactions < u32_mod

abbrev or_zero : Outcome ℕ → ℕ
or_zero (returns n) = n
or_zero panics = 0

-- The transaction of an index, which counts from the first one of the miniblock.
abbrev hash_in : Option TransactionExecutionResult → ℕ
hash_in none = 0
hash_in (some r) = or_zero (hash r.transaction)

abbrev initiator_in : Option TransactionExecutionResult → ℕ
initiator_in none = 0
initiator_in (some r) = initiator_account r.transaction

abbrev pub hash_at : MiniblockSealCommand → ℕ → ℕ
hash_at c i = hash_in (nth (i - c.first_tx_index) c.miniblock.executed_transactions)

abbrev pub location_at : MiniblockSealCommand → ℕ → IncludedTxLocation
location_at c i = record {
  tx_hash = hash_at c i;
  tx_index_in_miniblock = i - c.first_tx_index;
  tx_initiator_address =
      initiator_in (nth (i - c.first_tx_index) c.miniblock.executed_transactions);
}

nth_All :
    {A : Type 0} (P : A → Type 0) (k : ℕ) (xs : List A)
    → k < length xs
    → All P xs
    → (x : A) × (nth k xs ≡ some x) × P x
nth_All P k [] h all = absurd (omega arith)
nth_All P zero (x ∷ xs) h all = (x, refl, all.0)
nth_All P (suc k) (x ∷ xs) h all = nth_All P k xs (omega arith) all.1

-- A log that writes, as the database takes it.
abbrev pub write_log : StorageLogQuery → List StorageLog
write_log log = if log.log_query.rw_flag then from_log_query log ∷ [] else []

pub write_logs_of-cons :
    (log : StorageLogQuery) (logs : List StorageLogQuery)
    → write_logs_of (log ∷ logs) ≡ write_log log ++ write_logs_of logs
unfolding write_logs_of
write_logs_of-cons log logs = elim (Bool-cases log.log_query.rw_flag) [
  | inl e ↦ rw e refl
  | inr e ↦ rw e refl
]

module _ (c : MiniblockSealCommand) (s : IsSealable c) where
  log_owner-hash_at : (i : ℕ) → InRange c i → log_owner c false i ≡ returns (hash_at c i)
  unfolding log_owner transaction
  log_owner-hash_at i (above, below) =
      let (r, e, (h, hashed)) =
        nth_All (λ r. (h : ℕ) × (hash r.transaction ≡ returns h)) (i - c.first_tx_index)
          c.miniblock.executed_transactions (omega arith) s.hashed in
      let no_underflow : ltb i c.first_tx_index ≡ false = ground arith in
      rw (no_underflow, e, hashed) refl

  location-location_at : (i : ℕ) → InRange c i → location c false i ≡ returns (location_at c i)
  unfolding location transaction
  location-location_at i (above, below) =
      let (r, e, (h, hashed)) =
        nth_All (λ r. (h : ℕ) × (hash r.transaction ≡ returns h)) (i - c.first_tx_index)
          c.miniblock.executed_transactions (omega arith) s.hashed in
      let no_underflow : ltb i c.first_tx_index ≡ false = ground arith in
      let index : (i + (u32_mod - c.first_tx_index % u32_mod)) % u32_mod ≡ i - c.first_tx_index =
        omega (arith, s.small) in
      rw (no_underflow, e, hashed, index) refl

  all_of-InRange :
      {A : Type 0} (f : A → ℕ) (items : List A)
      → All (λ a. InRange c (f a)) items
      → all_of (λ a. tx_index_range c false (f a)) items ≡ true
  all_of-InRange f [] h = refl
  all_of-InRange f (a ∷ items) h =
      let here : tx_index_range c false (f a) ≡ true = ground (arith, h.0) in
      rw (here, all_of-InRange f items h.1) refl

  assert_valid : assert_valid_miniblock c false ≡ returns tt
  unfolding assert_valid_miniblock
  assert_valid =
      rw
        (
          s.executed,
          all_of-InRange (λ e. e.tx_index) c.miniblock.events s.events,
          all_of-InRange (λ l. l.log_query.tx_number_in_block) c.miniblock.storage_logs s.logs,
        )
        refl

  extract_logs :
      (groups : List (ℕ × List StorageLog)) × (extract_write_logs c false ≡ returns groups)
      × (owned groups
          ≡ flat_map
              (λ log. map (tag (hash_at c log.log_query.tx_number_in_block)) (write_log log))
              c.miniblock.storage_logs)
  unfolding extract_write_logs write_logs_of
  extract_logs =
      traverse-owned (log_owner c false) (hash_at c) (λ log. log.log_query.tx_number_in_block)
        write_logs_of write_log refl write_logs_of-cons c.miniblock.storage_logs
        (All-map (λ l. log_owner-hash_at l.log_query.tx_number_in_block) c.miniblock.storage_logs
          s.logs)

  extract_located :
      (groups : List (IncludedTxLocation × List VmEvent)) × (extract_events c false
        ≡ returns groups)
      × (owned groups ≡ flat_map (λ e. tag (location_at c e.tx_index) e ∷ []) c.miniblock.events)
  unfolding extract_events group_by_tx_location
  extract_located =
      traverse-owned (location c false) (location_at c) (λ e. e.tx_index) (λ es. es) (λ e. e ∷ [])
        refl (λ e es. refl) c.miniblock.events
        (All-map (λ e. location-location_at e.tx_index) c.miniblock.events s.events)

-- Sealing a miniblock of executed transactions does not panic, if its events and logs are all of
-- these and the transactions have hashes. The logs that write come in their order, each as the
-- database takes it and under the hash of the transaction at its index, and so do all events, under
-- that transaction's location, which counts from the miniblock's first transaction.
pub seal-owned :
    (hash_bytes : List ℕ → ℕ) (c : MiniblockSealCommand)
    → IsSealable c
    → (write_logs : List (ℕ × List StorageLog)) × (events : List
        (IncludedTxLocation × List VmEvent))
      × (seal hash_bytes c ≡ returns (miniblock_writes hash_bytes c write_logs events))
      × (owned write_logs
          ≡ flat_map
              (λ log. map (tag (hash_at c log.log_query.tx_number_in_block)) (write_log log))
              c.miniblock.storage_logs)
      × (owned events ≡ flat_map (λ e. tag (location_at c e.tx_index) e ∷ []) c.miniblock.events)
unfolding seal seal_inner
seal-owned hash_bytes c s =
    let (write_logs, e, o) = extract_logs c s in
    let (events, e', o') = extract_located c s in
    (write_logs, events, rw (assert_valid c s, e, e') refl, o, o')
