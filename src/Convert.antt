-- ===== src/Convert.antt =====
-- Conversions between numbers, bytes and words (utils/src/convert.rs). A byte is a number below
-- 256, an `H256` here is the list of its 32 bytes, and an array of four `u64` is their list.
pub mod Bytes
pub mod Chunks
pub mod Bytecode
mod Tests
use ola_os.Base.{
  ℕ, zero, suc, ◌+◌, ◌-◌, ◌*◌, ◌/◌, ◌%◌, List, [], ◌∷◌, ◌++◌, map, Outcome, returns, panics, assert,
  ◌>>=◌, ◌>>◌, ◌==◌, length, take, drop, replicate, flat_map, ltb, if◌then◌else◌,
}

-- `to_be_bytes` of an integer that has the given number of bytes.
unfoldable pub to_be_bytes : ℕ → ℕ → List ℕ
to_be_bytes zero n = []
to_be_bytes (suc w) n = to_be_bytes w (n / 256) ++ n % 256 ∷ []

unfoldable pub read_be : ℕ → List ℕ → ℕ
read_be acc [] = acc
read_be acc (b ∷ bs) = read_be (acc * 256 + b) bs

unfoldable pub from_be_bytes : List ℕ → ℕ
unfolding read_be
from_be_bytes bytes = read_be 0 bytes

-- An element joins the first chunk.
abbrev pub push_front {ℓ} : {A : Type ℓ} → A → List (List A) → List (List A)
push_front x [] = (x ∷ []) ∷ []
push_front x (c ∷ cs) = (x ∷ c) ∷ cs

-- Chunks of `last + 1` elements, where the first one has room for `room + 1`.
unfoldable pub chunks_from {ℓ} : {A : Type ℓ} → ℕ → ℕ → List A → List (List A)
chunks_from last room [] = []
chunks_from last zero (x ∷ xs) = (x ∷ []) ∷ chunks_from last last xs
chunks_from last (suc room) (x ∷ xs) = push_front x (chunks_from last room xs)

-- `slice::chunks`, for a size that is not zero.
abbrev pub chunks {ℓ} : {A : Type ℓ} → ℕ → List A → List (List A)
chunks size xs = chunks_from (size - 1) (size - 1) xs

abbrev pub ensure_chunkable : List ℕ → Outcome (Unit {0})
ensure_chunkable bytes = assert (length bytes % 32 == 0)

-- Each chunk is copied into an array of 32 bytes, which the assertion makes it fill.
unfoldable pub bytes_to_chunks : List ℕ → Outcome (List (List ℕ))
bytes_to_chunks bytes = do ensure_chunkable bytes; returns (chunks 32 bytes)

unfoldable pub bytes_to_be_words : List ℕ → Outcome (List ℕ)
bytes_to_be_words bytes = do ensure_chunkable bytes; returns (map from_be_bytes (chunks 32 bytes))

unfoldable pub be_words_to_bytes : List ℕ → List ℕ
be_words_to_bytes words = flat_map (to_be_bytes 32) words

unfoldable pub u64s_to_bytes : List ℕ → List ℕ
u64s_to_bytes arr = flat_map (to_be_bytes 8) arr

unfoldable pub bytes_to_u64s : List ℕ → Outcome (List ℕ)
bytes_to_u64s bytes = do
  assert (length bytes % 8 == 0)
  returns (map from_be_bytes (chunks 8 bytes))

unfoldable pub h256_to_u256 : List ℕ → ℕ
h256_to_u256 h = from_be_bytes h

unfoldable pub u256_to_h256 : ℕ → List ℕ
u256_to_h256 n = to_be_bytes 32 n

unfoldable pub h160_bytes_to_h256 : List ℕ → List ℕ
h160_bytes_to_h256 bytes = replicate 12 0 ++ bytes

unfoldable pub h256_to_u32 : List ℕ → ℕ
h256_to_u32 h = from_be_bytes (drop 28 h)

unfoldable pub h256_to_u64 : List ℕ → ℕ
h256_to_u64 h = from_be_bytes (drop 24 h)

unfoldable pub h256_to_u64_array : List ℕ → List ℕ
h256_to_u64_array h =
    from_be_bytes (take 8 h)
    ∷ from_be_bytes (take 8 (drop 8 h))
    ∷ from_be_bytes (take 8 (drop 16 h))
    ∷ from_be_bytes (take 8 (drop 24 h))
    ∷ []

-- The loop fills the four slots of eight bytes one after the other.
unfoldable pub u64_array_to_h256 : List ℕ → List ℕ
u64_array_to_h256 arr = flat_map (to_be_bytes 8) arr

unfoldable pub u64s_to_u256 : List ℕ → ℕ
unfolding u64_array_to_h256 h256_to_u256
u64s_to_u256 arr = h256_to_u256 (u64_array_to_h256 arr)

unfoldable pub serialize_block_number : ℕ → List ℕ
serialize_block_number n = to_be_bytes 4 n

-- `read_exact` fails on fewer bytes than it needs and leaves the bytes after them unread.
unfoldable pub read_exact : ℕ → List ℕ → Outcome ℕ
read_exact w bytes = if ltb (length bytes) w then panics else returns (from_be_bytes (take w bytes))

unfoldable pub deserialize_block_number : List ℕ → Outcome ℕ
unfolding read_exact
deserialize_block_number bytes = read_exact 4 bytes

unfoldable pub serialize_leaf_index : ℕ → List ℕ
serialize_leaf_index n = to_be_bytes 8 n

unfoldable pub deserialize_leaf_index : List ℕ → Outcome ℕ
unfolding read_exact
deserialize_leaf_index bytes = read_exact 8 bytes

-- A leaf is four field elements, each of one `u64`.
unfoldable pub serialize_tree_leaf : List ℕ → List ℕ
serialize_tree_leaf leaf = flat_map (to_be_bytes 8) leaf
