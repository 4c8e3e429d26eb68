-- ===== src/InitialWrites.antt =====
-- The indices of initial writes that were sealed without one
-- (ola_core/src/sequencer/io/common.rs, set_missing_initial_writes_indices). The database's answers
-- are parameters: the greatest index with its batch, the number of the last sealed batch at each
-- look, and the storage keys of each batch's initial writes; what is returned is what is set, batch
-- by batch.
pub mod Consecutive
mod Tests
use ola_os.Base.{ℕ, zero, suc, ◌+◌, Option, none, some, List, [], ◌∷◌, ltb, length, if◌then◌else◌}
use Prim.Native.Nat.{Ordering}
use mathlib.Core.Option
use ola_os.Types.Log.{StorageKey, storage_key_ord}
use ola_os.Base.Order.{Ord}

-- `sorted`
abbrev pub insert_sorted {ℓ} : {K : Type ℓ} ⦃o : Ord K⦄ → K → List K → List K
insert_sorted k [] = k ∷ []
insert_sorted ⦃o⦄ k (j ∷ keys) = elim (o.cmp k j) [
  | Ordering.gt ↦ j ∷ insert_sorted k keys
  | _ ↦ k ∷ j ∷ keys
]

unfoldable pub sorted {ℓ} : {K : Type ℓ} ⦃o : Ord K⦄ → List K → List K
sorted [] = []
sorted (k ∷ keys) = insert_sorted k (sorted keys)

-- `enumerate`, from the next index on.
unfoldable pub indexed_keys : (StorageKey → ℕ) → ℕ → List StorageKey → List (ℕ × ℕ)
indexed_keys hashed_key next_index [] = []
indexed_keys hashed_key next_index (key ∷ keys) =
    (hashed_key key, next_index) ∷ indexed_keys hashed_key (next_index + 1) keys

-- The next index, and the batch to start from.
unfoldable pub start_of : Option (ℕ × ℕ) → ℕ × ℕ
start_of none = (1, 0)
start_of (some (index, l1_batch_number)) = (index + 1, l1_batch_number + 1)

module _ (hashed_key : StorageKey → ℕ) (storage_keys : ℕ → List StorageKey) (sealed : ℕ → ℕ) where
  -- The loop, which looks at the last sealed batch again in every round, on the fuel of its rounds:
  -- nothing is returned while it goes on.
  unfoldable pub set_indices : ℕ → ℕ → ℕ → ℕ → Option (List (List (ℕ × ℕ)))
  unfolding sorted indexed_keys
  set_indices zero look current_l1_batch next_index = none
  set_indices (suc n) look current_l1_batch next_index =
      let indices = indexed_keys hashed_key next_index (sorted (storage_keys current_l1_batch)) in
      let rest = set_indices n (look + 1) (current_l1_batch + 1) (next_index + length indices) in
      if ltb (sealed look) current_l1_batch
      then some []
      else Option.map (λ batches. indices ∷ batches) rest

  unfoldable pub set_missing_initial_writes_indices :
      ℕ → Option (ℕ × ℕ) → Option (List (List (ℕ × ℕ)))
  unfolding start_of set_indices
  set_missing_initial_writes_indices n max_set_enumeration_index =
      let (next_index, start_from_batch) = start_of max_set_enumeration_index in
      let rounds = set_indices n 1 start_from_batch next_index in
      if ltb (sealed 0) start_from_batch then some [] else rounds
