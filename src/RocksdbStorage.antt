-- ===== src/RocksdbStorage.antt =====
-- The sequencer's copy of the state in RocksDB, and how it follows Postgres (state/src/rocksdb.rs,
-- state/src/in_memory.rs). A column is the map of what it holds; the hashed key of a slot is a
-- parameter, as are Postgres's answers: the last sealed batch, and the slots and factory
-- dependencies of each batch. Reads and writes of RocksDB are taken to succeed.
pub mod Follows
mod Tests
use ola_os.Base.{
  ℕ, zero, suc, ◌+◌, ◌-◌, ◌*◌, ◌/◌, ◌%◌, Bool, true, false, not, ◌||◌, Option, none, some, List, [],
  ◌∷◌, Outcome, returns, panics, assert, ◌>>=◌, ◌>>◌, ◌==◌, leb, length, is_some, if◌then◌else◌,
}
use ola_os.Base.Words.{u32_mod}
use ola_os.Base.Map.{Map, lookup, insert}
use ola_os.Base.Order.{Ord, nat_ord}
use ola_os.Types.Log.{StorageKey, storage_key_ord}

abbrev pub to_le_bytes : ℕ → ℕ → List ℕ
to_le_bytes zero n = []
to_le_bytes (suc w) n = n % 256 ∷ to_le_bytes w (n / 256)

abbrev pub from_le_bytes : List ℕ → ℕ
from_le_bytes [] = 0
from_le_bytes (b ∷ bytes) = b + 256 * from_le_bytes bytes

unfoldable pub serialize_block_number : ℕ → List ℕ
serialize_block_number block_number = to_le_bytes 4 block_number

unfoldable pub deserialize_block_number : List ℕ → Outcome ℕ
deserialize_block_number bytes = do assert (length bytes == 4); returns (from_le_bytes bytes)

pub record InMemoryStorage : Type 0 where
  pub state : Map StorageKey ℕ
  pub factory_deps : Map ℕ (List ℕ)

-- `InMemoryStorage::default`
abbrev pub empty_patch : InMemoryStorage
empty_patch = record { state = []; factory_deps = [] }

-- The columns `State`, whose entry for the block number stands apart, and `FactoryDeps`.
pub record Columns : Type 0 where
  pub state : Map ℕ ℕ
  pub block_number : Option (List ℕ)
  pub factory_deps : Map ℕ (List ℕ)

pub record RocksdbStorage : Type 0 where
  pub db : Columns
  pub pending_patch : InMemoryStorage

-- `RocksdbStorage::new`
unfoldable pub new : Columns → RocksdbStorage
new db = record { db = db; pending_patch = empty_patch }

unfoldable pub l1_batch_number : RocksdbStorage → Outcome ℕ
unfolding deserialize_block_number
l1_batch_number s = elim s.db.block_number [
  | none ↦ returns 0
  | some bytes ↦ deserialize_block_number bytes
]

unfoldable pub store_factory_dep : ℕ → List ℕ → InMemoryStorage → InMemoryStorage
store_factory_dep hash bytecode p = record p { factory_deps = insert hash bytecode p.factory_deps }

abbrev pub store_factory_deps : List (ℕ × List ℕ) → InMemoryStorage → InMemoryStorage
store_factory_deps [] p = p
store_factory_deps ((hash, bytecode) ∷ deps) p =
    store_factory_deps deps (store_factory_dep hash bytecode p)

abbrev pub put_deps : List (ℕ × List ℕ) → Map ℕ (List ℕ) → Map ℕ (List ℕ)
put_deps [] db = db
put_deps ((hash, value) ∷ deps) db = insert hash value (put_deps deps db)

abbrev pub or_zero : Option ℕ → ℕ
or_zero none = 0
or_zero (some v) = v

-- What the pending patch has of a bytecode comes first.
abbrev pub first_of : Option (List ℕ) → Option (List ℕ) → Option (List ℕ)
first_of none stored = stored
first_of (some value) stored = some value

unfoldable pub load_factory_dep : ℕ → RocksdbStorage → Option (List ℕ)
load_factory_dep hash s =
    first_of (lookup hash s.pending_patch.factory_deps) (lookup hash s.db.factory_deps)

module _ (hashed_key : StorageKey → ℕ) where
  unfoldable pub read_value_inner : StorageKey → RocksdbStorage → Option ℕ
  read_value_inner key s = lookup (hashed_key key) s.db.state

  unfoldable pub read_value : StorageKey → RocksdbStorage → ℕ
  unfolding read_value_inner
  read_value key s = or_zero (read_value_inner key s)

  unfoldable pub is_write_initial : StorageKey → RocksdbStorage → Bool
  unfolding read_value_inner
  is_write_initial key s = not (is_some (read_value_inner key s))

  -- The state that is pending after the updates of a batch, whose keys are all different.
  unfoldable pub process_transaction_logs :
      RocksdbStorage → List (StorageKey × ℕ) → Map StorageKey ℕ
  unfolding read_value_inner
  process_transaction_logs s [] = s.pending_patch.state
  process_transaction_logs s ((key, value) ∷ updates) =
      let rest = process_transaction_logs s updates in
      if not (value == 0) || is_some (read_value_inner key s) then insert key value rest else rest

  unfoldable pub put_state : List (StorageKey × ℕ) → Map ℕ ℕ → Map ℕ ℕ
  put_state [] db = db
  put_state ((key, value) ∷ updates) db = insert (hashed_key key) value (put_state updates db)

  -- The patch is written together with the number.
  unfoldable pub save : ℕ → RocksdbStorage → RocksdbStorage
  unfolding put_state serialize_block_number
  save number s = record {
    db = record {
      state = put_state s.pending_patch.state s.db.state;
      block_number = some (serialize_block_number number);
      factory_deps = put_deps s.pending_patch.factory_deps s.db.factory_deps;
    };
    pending_patch = empty_patch;
  }

  module _ (touched_slots : ℕ → Map StorageKey ℕ) (factory_deps : ℕ → Map ℕ (List ℕ)) where
    -- One round of the loop.
    unfoldable pub load_batch : ℕ → RocksdbStorage → RocksdbStorage
    unfolding process_transaction_logs store_factory_dep save
    load_batch current s =
        let patch = record s.pending_patch {
          state = process_transaction_logs s (touched_slots current);
        } in
        save ((current + 1) % u32_mod)
          (record s { pending_patch = store_factory_deps (factory_deps current) patch })

    -- The loop, for a number of batches.
    unfoldable pub load_batches : ℕ → ℕ → RocksdbStorage → RocksdbStorage
    unfolding load_batch
    load_batches zero current s = s
    load_batches (suc n) current s = load_batches n (current + 1) (load_batch current s)

    unfoldable pub update_from_postgres : ℕ → RocksdbStorage → Outcome RocksdbStorage
    unfolding l1_batch_number load_batches
    update_from_postgres latest_l1_batch_number s = do
      current ← l1_batch_number s
      assert (leb current (latest_l1_batch_number + 1))
      returns (load_batches (latest_l1_batch_number + 1 - current) current s)
