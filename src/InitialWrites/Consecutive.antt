-- ===== src/InitialWrites/Consecutive.antt =====
-- Which keys get which indices (ola_core/src/sequencer/io/common.rs).
use Prim.Native.Nat.{Ordering}
use mathlib.Core.List.{Permᴰ}
use mathlib.Core.List.Permᴰ
use ola_os.Base.{
  ℕ, zero, suc, ◌+◌, ◌≤◌, ◌<◌, ◌≡◌, ◌≢◌, Option, none, some, List, [], ◌∷◌, map, length, All,
}
use ola_os.Types.Log.{StorageKey, storage_key_ord, storage_key_cmp}
use ola_os.InitialWrites.{set_indices}

-- The numbers from one on.
abbrev pub numbers : ℕ → ℕ → List ℕ
numbers from zero = []
numbers from (suc n) = from ∷ numbers (from + 1) n

abbrev pub IsNotAfter : StorageKey → StorageKey → Type 0
IsNotAfter j k = storage_key_cmp j k ≢ Ordering.gt

abbrev pub IsAscending : List StorageKey → Type 0
IsAscending [] = Unit
IsAscending (k ∷ keys) = All (IsNotAfter k) keys × IsAscending keys

-- The next index and the batch to start from: the first ones, or those after the greatest index.
pub data Starts : Option (ℕ × ℕ) → ℕ → ℕ → Type 0 where
  at_first : Starts none 1 0
  after_index : (index batch : ℕ) → Starts (some (index, batch)) (index + 1) (batch + 1)

module _ (hashed_key : StorageKey → ℕ) (storage_keys : ℕ → List StorageKey) where
  -- The keys of a batch in ascending order, each with the next index.
  pub record IsBatch (next batch : ℕ) (keys : List StorageKey) (pairs : List (ℕ × ℕ)) : Type 0 where
    pub reorders : Permᴰ keys (storage_keys batch)
    pub ascends : IsAscending keys
    pub hashes : map (λ p. p.0) pairs ≡ map hashed_key keys
    pub indices : map (λ p. p.1) pairs ≡ numbers next (length keys)

  -- Some batches from one on, the indices of each after those of the one before.
  pub data Indexed : ℕ → ℕ → ℕ → List (List (ℕ × ℕ)) → Type 0 where
    no_batch : (next batch : ℕ) → Indexed next batch 0 []
    one_batch :
        (next batch n : ℕ) (keys : List StorageKey) (pairs : List (ℕ × ℕ))
        (rest : List (List (ℕ × ℕ)))
        → IsBatch next batch keys pairs
        → Indexed (next + length keys) (batch + 1) n rest
        → Indexed next batch (suc n) (pairs ∷ rest)

module _ (hashed_key : StorageKey → ℕ) where
  module _ (storage_keys : ℕ → List StorageKey) (sealed : ℕ → ℕ) (last : ℕ)
      (bounded : (look : ℕ) → sealed look ≤ last) where
    IsDone : ℕ → ℕ → ℕ → ℕ → Type 0
    IsDone n look batch next =
        (m : ℕ) × (l : List (List (ℕ × ℕ))) × (set_indices hashed_key storage_keys sealed n look
            batch next
          ≡ some l)
        × Indexed hashed_key storage_keys next batch m l
        × ((look' : ℕ) × (sealed look' < batch + m))
