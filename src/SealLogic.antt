-- ===== src/SealLogic.antt =====
-- What sealing a miniblock writes to the database (ola_core/src/sequencer/io/seal_logic.rs). The
-- writes are those of one database transaction, which a panic before its commit leaves out. The
-- hash of bytes is a parameter. Progress and counts that are only logged are left out.
pub mod Groups
pub mod Miniblock
pub mod Indexed
pub mod Batch
pub mod History
pub mod Slots
pub mod OfKey
pub mod Stamps
pub mod Sorting
pub mod Counting
pub mod Agree
pub mod Whole
mod Tests
mod WholeTests
use ola_os.Base.{
  ℕ, zero, suc, ◌+◌, ◌-◌, ◌%◌, Bool, true, false, not, ◌&&◌, Option, none, some, List, [], ◌∷◌,
  ◌++◌, map, Outcome, returns, panics, assert, expect, ◌>>=◌, ◌>>◌, ◌==◌, leb, ltb, length,
  is_empty, if◌then◌else◌,
}
use ola_os.Base.Map.{Map}
use ola_os.Base.Words.{u32_mod}
use ola_os.Convert.{to_be_bytes}
use ola_os.Types.Tx.{Transaction, hash, initiator_account}
use ola_os.Types.Log.{StorageLogQuery, StorageLog, from_log_query}
use ola_os.Types.Execution.{VmEvent, TransactionExecutionResult}
use ola_os.Updates.{MiniblockSealCommand, BaseSystemContractsHashes}

pub record MiniblockHeader : Type 0 where
  pub number : ℕ
  pub timestamp : ℕ
  pub hash : ℕ
  pub l1_tx_count : ℕ
  pub l2_tx_count : ℕ
  pub base_system_contracts_hashes : BaseSystemContractsHashes
  pub protocol_version : Option ℕ

pub record IncludedTxLocation : Type 0 where
  pub tx_hash : ℕ
  pub tx_index_in_miniblock : ℕ
  pub tx_initiator_address : ℕ

-- The calls of the database that write.
pub data DbWrite : Type 0 where
  insert_miniblock : MiniblockHeader → DbWrite
  mark_txs_as_executed_in_miniblock : ℕ → List TransactionExecutionResult → DbWrite
  insert_storage_logs : ℕ → List (ℕ × List StorageLog) → DbWrite
  apply_storage_logs : List (ℕ × List StorageLog) → DbWrite
  insert_factory_deps : ℕ → Map ℕ (List ℕ) → DbWrite
  save_events : ℕ → List (IncludedTxLocation × List VmEvent) → DbWrite

-- `group_by` of the itertools crate: neighbours with one key form a group.
abbrev pub join_run : {A : Type 0} → ℕ → A → List (ℕ × List A) → List (ℕ × List A)
join_run i a [] = (i, a ∷ []) ∷ []
join_run i a ((j, items) ∷ groups) =
    if i == j then (i, a ∷ items) ∷ groups else (i, a ∷ []) ∷ (j, items) ∷ groups

unfoldable pub group_runs : {A : Type 0} → (A → ℕ) → List A → List (ℕ × List A)
group_runs key [] = []
group_runs key (a ∷ items) = join_run (key a) a (group_runs key items)

-- An iterator is collected, and a panic of one item is one of the whole.
unfoldable pub traverse : {A B : Type 0} → (A → Outcome B) → List A → Outcome (List B)
traverse f [] = returns []
traverse f (a ∷ items) = do b ← f a; bs ← traverse f items; returns (b ∷ bs)

abbrev pub all_of : {A : Type 0} → (A → Bool) → List A → Bool
all_of test [] = true
all_of test (a ∷ items) = test a && all_of test items

abbrev pub filter : {A : Type 0} → (A → Bool) → List A → List A
filter test [] = []
filter test (a ∷ items) = if test a then a ∷ filter test items else filter test items

-- `v[index]`
abbrev pub nth : {A : Type 0} → ℕ → List A → Option A
nth index [] = none
nth zero (a ∷ items) = some a
nth (suc index) (a ∷ items) = nth index items

-- `(start..end).contains(&index)`
abbrev pub in_range : ℕ → ℕ → ℕ → Bool
in_range start end index = leb start index && ltb index end

unfoldable pub l1_l2_tx_count : List TransactionExecutionResult → ℕ × ℕ
l1_l2_tx_count executed_transactions = (0, length executed_transactions)

unfoldable pub miniblock_hash : (List ℕ → ℕ) → ℕ → ℕ
miniblock_hash hash_bytes miniblock_number = hash_bytes (to_be_bytes 4 miniblock_number)

abbrev pub tx_index_range : MiniblockSealCommand → Bool → ℕ → Bool
tx_index_range c is_fictive =
    let next_tx_index = c.first_tx_index + length c.miniblock.executed_transactions in
    if is_fictive
    then in_range next_tx_index (next_tx_index + 1)
    else in_range c.first_tx_index next_tx_index

abbrev pub same_bool : Bool → Bool → Bool
same_bool a b = if a then b else not b

unfoldable pub assert_valid_miniblock : MiniblockSealCommand → Bool → Outcome (Unit {0})
assert_valid_miniblock c is_fictive = do
  assert (same_bool (is_empty c.miniblock.executed_transactions) is_fictive)
  assert (all_of (λ event. tx_index_range c is_fictive event.tx_index) c.miniblock.events)
  assert (
      all_of (λ log. tx_index_range c is_fictive log.log_query.tx_number_in_block)
        c.miniblock.storage_logs)

-- An index below the first one underflows, and panics either way.
unfoldable pub transaction : MiniblockSealCommand → ℕ → Outcome Transaction
transaction c index = if ltb index c.first_tx_index then panics else (do
  tx_result ← expect (nth (index - c.first_tx_index) c.miniblock.executed_transactions)
  returns tx_result.transaction)

-- The hash of the transaction that a group of logs is of.
unfoldable pub log_owner : MiniblockSealCommand → Bool → ℕ → Outcome ℕ
unfolding transaction
log_owner c true tx_index = do assert (tx_index == c.first_tx_index); returns 0
log_owner c false tx_index = do tx ← transaction c tx_index; hash tx

unfoldable pub write_logs_of : List StorageLogQuery → List StorageLog
unfolding from_log_query
write_logs_of logs = map from_log_query (filter (λ log. log.log_query.rw_flag) logs)

unfoldable pub extract_write_logs :
    MiniblockSealCommand → Bool → Outcome (List (ℕ × List StorageLog))
unfolding log_owner group_runs traverse write_logs_of
extract_write_logs c is_fictive =
    traverse
      (λ group.
        log_owner c is_fictive group.0 >>= λ tx_hash. returns (tx_hash, write_logs_of group.1))
      (group_runs (λ log. log.log_query.tx_number_in_block) c.miniblock.storage_logs)

-- The location of the transaction that a group of entries is of.
unfoldable pub location : MiniblockSealCommand → Bool → ℕ → Outcome IncludedTxLocation
unfolding transaction
location c true tx_index = do
  assert (tx_index == c.first_tx_index)
  returns (record {
    tx_hash = 0;
    tx_index_in_miniblock = (tx_index + (u32_mod - c.first_tx_index % u32_mod)) % u32_mod;
    tx_initiator_address = 0;
  })
location c false tx_index = do
  tx ← transaction c tx_index
  tx_hash ← hash tx
  returns (record {
    tx_hash = tx_hash;
    tx_index_in_miniblock = (tx_index + (u32_mod - c.first_tx_index % u32_mod)) % u32_mod;
    tx_initiator_address = initiator_account tx;
  })

unfoldable pub group_by_tx_location :
    {T : Type 0}
    → MiniblockSealCommand
    → List T
    → Bool
    → (T → ℕ)
    → Outcome (List (IncludedTxLocation × List T))
unfolding location group_runs traverse
group_by_tx_location c entries is_fictive tx_location =
    traverse (λ group. location c is_fictive group.0 >>= λ l. returns (l, group.1))
      (group_runs tx_location entries)

unfoldable pub extract_events :
    MiniblockSealCommand → Bool → Outcome (List (IncludedTxLocation × List VmEvent))
unfolding group_by_tx_location
extract_events c is_fictive =
    group_by_tx_location c c.miniblock.events is_fictive (λ event. event.tx_index)

abbrev pub factory_deps_write : ℕ → Map ℕ (List ℕ) → List DbWrite
factory_deps_write number [] = []
factory_deps_write number (dep ∷ deps) = insert_factory_deps number (dep ∷ deps) ∷ []

unfoldable pub miniblock_header : (List ℕ → ℕ) → MiniblockSealCommand → MiniblockHeader
unfolding l1_l2_tx_count miniblock_hash
miniblock_header hash_bytes c =
    let (l1_tx_count, l2_tx_count) = l1_l2_tx_count c.miniblock.executed_transactions in
    record {
      number = c.miniblock_number;
      timestamp = c.miniblock.timestamp;
      hash = miniblock_hash hash_bytes c.miniblock_number;
      l1_tx_count = l1_tx_count % 65536;
      l2_tx_count = l2_tx_count % 65536;
      base_system_contracts_hashes = c.base_system_contracts_hashes;
      protocol_version = some c.protocol_version;
    }

-- What is written in the end, in its order.
unfoldable pub miniblock_writes :
    (List ℕ → ℕ)
    → MiniblockSealCommand
    → List (ℕ × List StorageLog)
    → List (IncludedTxLocation × List VmEvent)
    → List DbWrite
unfolding miniblock_header
miniblock_writes hash_bytes c write_logs events =
    insert_miniblock (miniblock_header hash_bytes c)
    ∷ mark_txs_as_executed_in_miniblock c.miniblock_number c.miniblock.executed_transactions
    ∷ insert_storage_logs c.miniblock_number write_logs
    ∷ apply_storage_logs write_logs
    ∷ (factory_deps_write c.miniblock_number c.miniblock.new_factory_deps
        ++ save_events c.miniblock_number events ∷ [])

unfoldable pub seal_inner : (List ℕ → ℕ) → MiniblockSealCommand → Bool → Outcome (List DbWrite)
unfolding assert_valid_miniblock extract_write_logs extract_events miniblock_writes
seal_inner hash_bytes c is_fictive = do
  assert_valid_miniblock c is_fictive
  write_logs ← extract_write_logs c is_fictive
  miniblock_events ← extract_events c is_fictive
  returns (miniblock_writes hash_bytes c write_logs miniblock_events)

-- `MiniblockSealCommand::seal`
unfoldable pub seal : (List ℕ → ℕ) → MiniblockSealCommand → Outcome (List DbWrite)
unfolding seal_inner
seal hash_bytes c = seal_inner hash_bytes c false
