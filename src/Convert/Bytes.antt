-- ===== src/Convert/Bytes.antt =====
-- Big-endian bytes of one number and back (`to_be_bytes`, `from_be_bytes` as utils/src/convert.rs
-- uses them).
use ola_os.Base.{
  ℕ, zero, suc, ◌+◌, ◌*◌, ◌/◌, ◌%◌, ◌<◌, ◌^◌, ◌≡◌, refl, subst, sym, ap, ◌∙◌, List, [], ◌∷◌, ◌++◌,
  append_assoc, append-nil, arith, length, length-append, All, All-append, drop, drop_all,
  drop-append, take, take-length-append, returns,
}
use ola_os.Convert.{
  to_be_bytes, read_be, from_be_bytes, serialize_block_number, deserialize_block_number,
  serialize_leaf_index, deserialize_leaf_index, read_exact, u256_to_h256, h256_to_u64, h256_to_u32,
  h256_to_u256,
}

-- How many numbers a width of bytes has.
abbrev pub space : ℕ → ℕ
space zero = 1
space (suc w) = 256 * space w

abbrev pub IsByte : ℕ → Type 0
IsByte b = b < 256

pub length-to_be_bytes : (w n : ℕ) → length (to_be_bytes w n) ≡ w
unfolding to_be_bytes
length-to_be_bytes zero n = omega arith
length-to_be_bytes (suc w) n =
    omega (
      arith,
      length-append (to_be_bytes w (n / 256)) (n % 256 ∷ []),
      length-to_be_bytes w (n / 256),
    )

pub to_be_bytes-IsByte : (w n : ℕ) → All IsByte (to_be_bytes w n)
unfolding to_be_bytes
to_be_bytes-IsByte zero n = tt
to_be_bytes-IsByte (suc w) n =
    All-append IsByte (to_be_bytes w (n / 256)) (n % 256 ∷ []) (to_be_bytes-IsByte w (n / 256))
      (omega arith, tt)

read_be-append : (acc : ℕ) (xs ys : List ℕ) → read_be acc (xs ++ ys) ≡ read_be (read_be acc xs) ys
unfolding read_be
read_be-append acc [] ys = refl
read_be-append acc (x ∷ xs) ys = read_be-append (acc * 256 + x) xs ys

pub from_be_bytes-to_be_bytes : (w n : ℕ) → n < space w → from_be_bytes (to_be_bytes w n) ≡ n
unfolding from_be_bytes to_be_bytes read_be
from_be_bytes-to_be_bytes zero n h = omega arith
from_be_bytes-to_be_bytes (suc w) n h =
    let front = from_be_bytes-to_be_bytes w (n / 256) (omega arith) in
    rw (read_be-append 0 (to_be_bytes w (n / 256)) (n % 256 ∷ []), front) (omega arith)

to_be_bytes-read_be :
    (bs : List ℕ) (w acc : ℕ)
    → All IsByte bs
    → to_be_bytes (length bs + w) (read_be acc bs) ≡ to_be_bytes w acc ++ bs
unfolding to_be_bytes read_be
to_be_bytes-read_be [] w acc h =
    let none_left : 0 + w ≡ w = omega arith in
    ap (λ k. to_be_bytes k acc) none_left ∙ sym (append-nil (to_be_bytes w acc))
to_be_bytes-read_be (b ∷ bs) w acc h =
    let shift : suc (length bs) + w ≡ length bs + suc w = omega arith in
    let digit : b < 256 = h.0 in
    let front : (acc * 256 + b) / 256 ≡ acc = omega arith in
    let last : (acc * 256 + b) % 256 ≡ b = omega arith in
    ap (λ k. to_be_bytes k (read_be (acc * 256 + b) bs)) shift
    ∙ to_be_bytes-read_be bs (suc w) (acc * 256 + b) h.1
    ∙ rw (front, last, append_assoc (to_be_bytes w acc) (b ∷ []) bs) refl

pub to_be_bytes-from_be_bytes :
    (bs : List ℕ) → All IsByte bs → to_be_bytes (length bs) (from_be_bytes bs) ≡ bs
unfolding from_be_bytes to_be_bytes
to_be_bytes-from_be_bytes bs h =
    let shift : length bs ≡ length bs + 0 = omega arith in
    ap (λ k. to_be_bytes k (from_be_bytes bs)) shift ∙ to_be_bytes-read_be bs 0 0 h

-- The last bytes of a number are those of its remainder.
pub drop-to_be_bytes : (w k n : ℕ) → drop k (to_be_bytes (k + w) n) ≡ to_be_bytes w n
unfolding to_be_bytes
drop-to_be_bytes zero k n =
    drop_all k (to_be_bytes (k + 0) n) (omega (arith, length-to_be_bytes (k + 0) n))
drop-to_be_bytes (suc w) k n =
    let shift : k + suc w ≡ suc (k + w) = omega arith in
    let front = to_be_bytes (k + w) (n / 256) in
    ap (λ i. drop k (to_be_bytes i n)) shift
    ∙ drop-append k front (n % 256 ∷ []) (omega (arith, length-to_be_bytes (k + w) (n / 256)))
    ∙ rw (drop-to_be_bytes w k (n / 256)) refl

from_be_bytes-to_be_bytes_add :
    (w q r : ℕ) → r < space w → from_be_bytes (to_be_bytes w (q * space w + r)) ≡ r
unfolding from_be_bytes to_be_bytes read_be
from_be_bytes-to_be_bytes_add zero q r h = omega arith
from_be_bytes-to_be_bytes_add (suc w) q r h =
    let n = q * (256 * space w) + r in
    let carry : n / 256 ≡ q * space w + r / 256 = ground (arith) in
    let low : n % 256 ≡ r % 256 = ground (arith) in
    let front = from_be_bytes-to_be_bytes_add w q (r / 256) (omega arith) in
    rw (read_be-append 0 (to_be_bytes w (n / 256)) (n % 256 ∷ []), carry, low, front) (omega arith)

-- The low bytes of a number are the bytes of its remainder.
pub from_be_bytes-to_be_bytes_mod :
    (w n : ℕ) → 0 < space w → from_be_bytes (to_be_bytes w n) ≡ n % space w
from_be_bytes-to_be_bytes_mod w n h =
    let split : n ≡ n / space w * space w + n % space w = ground arith in
    let low : n % space w < space w = ground arith in
    ap (λ i. from_be_bytes (to_be_bytes w i)) split
    ∙ from_be_bytes-to_be_bytes_add w (n / space w) (n % space w) low

read_exact-to_be_bytes :
    (w n : ℕ) (rest : List ℕ) → n < space w → read_exact w (to_be_bytes w n ++ rest) ≡ returns n
unfolding read_exact
read_exact-to_be_bytes w n rest h =
    let bytes = to_be_bytes w n in
    let front : take w (bytes ++ rest) ≡ bytes =
      subst (λ k. take k (bytes ++ rest) ≡ bytes) (length-to_be_bytes w n)
        (take-length-append bytes rest) in
    rw (front, from_be_bytes-to_be_bytes w n h)
      (ground (arith, length-append bytes rest, length-to_be_bytes w n))

-- A block number or a leaf index is read back from its bytes, whatever follows them.
pub deserialize-serialize :
    (block leaf : ℕ) (rest : List ℕ)
    → block < 2 ^ 32
    → leaf < 2 ^ 64
    → (deserialize_block_number (serialize_block_number block ++ rest) ≡ returns block)
      × (deserialize_leaf_index (serialize_leaf_index leaf ++ rest) ≡ returns leaf)
unfolding deserialize_block_number deserialize_leaf_index serialize_block_number
    serialize_leaf_index
deserialize-serialize block leaf rest small large = (
  read_exact-to_be_bytes 4 block rest (omega arith),
  read_exact-to_be_bytes 8 leaf rest (omega arith),
)

-- A 256-bit number keeps its value through `H256`, its 32 bytes are one `H256`, and the narrow
-- readers return its remainder modulo 2^64 and 2^32.
pub u256_to_h256_lem :
    (n : ℕ)
    → n < 2 ^ 256
    → (h256_to_u256 (u256_to_h256 n) ≡ n)
      × (length (u256_to_h256 n) ≡ 32)
      × (h256_to_u64 (u256_to_h256 n) ≡ n % 2 ^ 64)
      × (h256_to_u32 (u256_to_h256 n) ≡ n % 2 ^ 32)
unfolding h256_to_u256 u256_to_h256 h256_to_u64 h256_to_u32
u256_to_h256_lem n h = (
  from_be_bytes-to_be_bytes 32 n (omega arith),
  length-to_be_bytes 32 n,
  ap from_be_bytes (drop-to_be_bytes 8 24 n) ∙ from_be_bytes-to_be_bytes_mod 8 n (omega arith),
  ap from_be_bytes (drop-to_be_bytes 4 28 n) ∙ from_be_bytes-to_be_bytes_mod 4 n (omega arith),
)
