-- ===== src/RocksdbStorage/Tests.antt =====
-- A new copy that catches up with three batches.
use ola_os.Base.{
  ◌-◌, ◌≤◌, ◌<◌, ap, subst, order-cases, less, same, more, ℕ, zero, suc, ◌+◌, ◌≡◌, refl, Bool, true,
  false, none, List, [], ◌∷◌, Outcome, returns, arith,
}
use ola_os.Base.Map.{Map, lookup, insert, IsSorted}
use ola_os.Base.Order.{nat_ord}
use ola_os.Types.Log.{StorageKey, storage_key_ord}
use ola_os.RocksdbStorage.{
  RocksdbStorage, empty_patch, l1_batch_number, read_value, read_value_inner, is_write_initial,
  update_from_postgres,
}
use ola_os.RocksdbStorage.Follows.{Follows, update_from_postgres-Follows}

-- A stand-in for the hash that keeps every slot apart: it counts along the diagonals.
abbrev sums : ℕ → ℕ
sums zero = 0
sums (suc n) = suc n + sums n

abbrev one : StorageKey
one = record { account = 1; key = 2 }

abbrev next : StorageKey
next = record { account = 1; key = 3 }

abbrev hash_apart : StorageKey → ℕ
hash_apart k = sums (k.account + k.key) + k.key

sums_mono : (m n : ℕ) → sums m ≤ sums (m + n)
sums_mono m zero = let e : m + 0 ≡ m = omega arith in rw e (omega arith)
sums_mono m (suc n) =
    let e : m + suc n ≡ suc (m + n) = omega arith in rw e (omega (arith, sums_mono m n))

-- A later diagonal begins after an earlier one has ended.
sums_gap : (m n : ℕ) → m < n → sums m + m < sums n
sums_gap m n h =
    let e : suc m + (n - suc m) ≡ n = omega arith in
    let later = sums_mono (suc m) (n - suc m) in
    let later' : sums (suc m) ≤ sums n = subst (λ i. sums (suc m) ≤ sums i) e later in omega arith

same_sum : (m n a b : ℕ) → a ≤ m → b ≤ n → sums m + a ≡ sums n + b → m ≡ n
same_sum m n a b h k e = elim (order-cases m n) [
  | less l ↦ absurd (omega (arith, sums_gap m n l))
  | same s ↦ s
  | more l ↦ absurd (omega (arith, sums_gap n m l))
]

hash_apart_inj : (i j : StorageKey) → hash_apart i ≡ hash_apart j → i ≡ j
hash_apart_inj i j e =
    let s =
      same_sum (i.account + i.key) (j.account + j.key) i.key j.key (omega arith) (omega arith) e in
    let t : sums (i.account + i.key) ≡ sums (j.account + j.key) = ap sums s in
    let keys : i.key ≡ j.key = omega arith in
    let accounts : i.account ≡ j.account = omega arith in cc

-- The slots that the batches touch: one is written, then read as zero and written again.
abbrev touched : ℕ → Map StorageKey ℕ
touched zero = (one, 5) ∷ (next, 0) ∷ []
touched (suc zero) = (one, 0) ∷ []
touched _ = (one, 9) ∷ []

touched-IsSorted : (b : ℕ) → IsSorted (touched b)
touched-IsSorted zero = (refl, tt)
touched-IsSorted (suc zero) = tt
touched-IsSorted (suc (suc b)) = tt

abbrev no_deps : ℕ → Map ℕ (List ℕ)
no_deps b = []

abbrev nothing_yet : RocksdbStorage
nothing_yet = record {
  db = record { state = []; block_number = none; factory_deps = [] };
  pending_patch = empty_patch;
}

nothing_yet-Follows : Follows hash_apart touched 0 nothing_yet
unfolding l1_batch_number read_value read_value_inner is_write_initial lookup
nothing_yet-Follows = record {
  number = refl;
  values = λ k. refl;
  initial = λ k. refl;
  nothing = refl;
}

-- What two slots read as afterwards.
abbrev reads : Outcome RocksdbStorage → List (ℕ × Bool)
reads (returns t) =
    (read_value hash_apart one t, is_write_initial hash_apart one t)
    ∷ (read_value hash_apart next t, is_write_initial hash_apart next t)
    ∷ []
reads _ = []

two_slots :
    reads (update_from_postgres hash_apart touched no_deps 1 nothing_yet)
    ≡ (0, false) ∷ (0, true) ∷ []
unfolding update_from_postgres read_value is_write_initial lookup insert
two_slots = refl

update_from_postgres-Follows_example :
    (t : RocksdbStorage) × (update_from_postgres hash_apart touched no_deps 2 nothing_yet
      ≡ returns t)
    × Follows hash_apart touched (2 + 1) t
update_from_postgres-Follows_example =
    update_from_postgres-Follows hash_apart touched no_deps 2 0 nothing_yet hash_apart_inj
      touched-IsSorted nothing_yet-Follows (omega arith) (omega arith)
