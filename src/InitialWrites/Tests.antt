-- ===== src/InitialWrites/Tests.antt =====
-- Two batches, of two keys and of one, after an index that is set.
use ola_os.Base.{ℕ, zero, suc, ◌+◌, ◌≡◌, refl, none, some, List, [], ◌∷◌}
use ola_os.Types.Log.{StorageKey}
use ola_os.InitialWrites.{set_missing_initial_writes_indices}

abbrev hash_plainly : StorageKey → ℕ
hash_plainly k = k.account + k.key

abbrev keys_of : ℕ → List StorageKey
keys_of (suc (suc (suc zero))) =
    record { account = 9; key = 1 } ∷ record { account = 2; key = 5 } ∷ []
keys_of (suc (suc (suc (suc zero)))) = record { account = 1; key = 1 } ∷ []
keys_of _ = []

-- Batch 4 is sealed once the loop has begun.
abbrev sealed : ℕ → ℕ
sealed zero = 3
sealed (suc look) = 4

by_batch :
    set_missing_initial_writes_indices hash_plainly keys_of sealed 3 (some (7, 2))
    ≡ some (((7, 8) ∷ (10, 9) ∷ []) ∷ ((2, 10) ∷ []) ∷ [])
unfolding set_missing_initial_writes_indices
by_batch = refl

-- Two rounds are too few to see that no further batch is sealed.
goes_on : set_missing_initial_writes_indices hash_plainly keys_of sealed 2 (some (7, 2)) ≡ none
unfolding set_missing_initial_writes_indices
goes_on = refl
