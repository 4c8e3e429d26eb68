-- ===== src/Executor/Tape.antt =====
-- What the virtual machine is given for a transaction
-- (ola_core/src/sequencer/batch_executor/mod.rs).
use ola_os.Base.{
  ℕ, ◌-◌, ◌%◌, ◌<◌, ◌≤◌, ◌≡◌, ◌≢◌, ◌⊎◌, refl, inl, inr, List, [], ◌∷◌, returns, panics, length,
  take, drop, All, All-take, All-drop, length-take, length-drop, arith, order-cases, less, same,
  more,
}
use ola_os.Types.Tx.{L2TxCommonData, tx_type_number}
use ola_os.Convert.{u64s_to_bytes, bytes_to_u64s, h256_to_u64_array, u256_to_h256}
use ola_os.Convert.Bytes.{IsByte}
use ola_os.Convert.Chunks.{u64s_to_bytes-bytes_to_u64s}
use ola_os.Executor.{OlaTapeInitInfo, slice, first_four, tape_init_info}

slice_whole :
    (from to : ℕ) (v : List ℕ)
    → to ≤ length v
    → slice from to v ≡ returns (take (to - from) (drop from v))
unfolding slice
slice_whole from to v h = ground arith

slice_short : (from to : ℕ) (v : List ℕ) → length v < to → slice from to v ≡ panics
unfolding slice
slice_short from to v h = ground arith

first_four_whole : (ws : List ℕ) → length ws ≡ 4 → first_four ws ≡ returns ws
unfolding first_four
first_four_whole (a ∷ b ∷ c ∷ d ∷ []) h = refl
first_four_whole [] h = absurd (omega arith)
first_four_whole (a ∷ []) h = absurd (omega arith)
first_four_whole (a ∷ b ∷ []) h = absurd (omega arith)
first_four_whole (a ∷ b ∷ c ∷ []) h = absurd (omega arith)
first_four_whole (a ∷ b ∷ c ∷ d ∷ e ∷ ws) h = absurd (omega arith)

-- 32 bytes are four words.
word_of :
    (bytes : List ℕ)
    → All IsByte bytes
    → length bytes ≡ 32
    → (ws : List ℕ) × (bytes_to_u64s bytes ≡ returns ws)
      × (first_four ws ≡ returns ws)
      × (u64s_to_bytes ws ≡ bytes)
word_of bytes fits whole = elim (u64s_to_bytes-bytes_to_u64s bytes fits) [
  | inl (ragged, bad) ↦ absurd (ragged (omega arith))
  | inr (ws, cut, back, len) ↦ (ws, cut, first_four_whole ws (omega arith), back)
]

part_of :
    (from : ℕ) (v : List ℕ)
    → All IsByte v
    → from ≤ 32
    → 64 ≤ length v
    → (ws : List ℕ) × (bytes_to_u64s (take 32 (drop from v)) ≡ returns ws)
      × (first_four ws ≡ returns ws)
      × (u64s_to_bytes ws ≡ take 32 (drop from v))
part_of from v fits small long =
    word_of (take 32 (drop from v)) (All-take IsByte 32 (drop from v) (All-drop IsByte from v fits))
      (length-take 32 (drop from v) (omega (arith, length-drop from v)))

-- The machine's input for a transaction with these data.
pub record IsTapeOf (d : L2TxCommonData) (calldata : List ℕ) (hash : ℕ) (info : OlaTapeInitInfo)
    : Type 0 where
  pub version : info.version ≡ tx_type_number d.transaction_type
  pub origin : info.origin_address ≡ h256_to_u64_array (u256_to_h256 d.initiator_address)
  pub nonce : info.nonce ≡ d.nonce
  pub calldata_bytes : u64s_to_bytes info.calldata ≡ calldata
  pub r_bytes : u64s_to_bytes info.signature_r ≡ take 32 d.signature
  pub s_bytes : u64s_to_bytes info.signature_s ≡ take 32 (drop 32 d.signature)
  pub hash_words : info.tx_hash ≡ h256_to_u64_array (u256_to_h256 hash)

pub tape_init_info-short :
    (d : L2TxCommonData) (calldata : List ℕ) (hash : ℕ)
    → length d.signature < 64
    → tape_init_info d calldata hash ≡ panics
unfolding tape_init_info
tape_init_info-short d calldata hash short = elim (order-cases (length d.signature) 32) [
  | less shorter ↦ rw (slice_short 0 32 d.signature shorter) refl
  | same e ↦
      rw (slice_whole 0 32 d.signature (omega arith), slice_short 32 64 d.signature short) refl
  | more longer ↦
      rw (slice_whole 0 32 d.signature (omega arith), slice_short 32 64 d.signature short) refl
]

-- For a signature and calldata of bytes, preparing a transaction panics exactly if the signature
-- has less than 64 bytes or the calldata are no whole number of words. Otherwise the words that the
-- machine is given are the bytes of the calldata and of the two halves of the signature.
pub tape_init_info-cases :
    (d : L2TxCommonData) (calldata : List ℕ) (hash : ℕ)
    → All IsByte d.signature
    → All IsByte calldata
    → (((length d.signature < 64) ⊎ (length calldata % 8 ≢ 0))
        × (tape_init_info d calldata hash ≡ panics))
      ⊎ ((64 ≤ length d.signature)
          × (info : OlaTapeInitInfo) × (tape_init_info d calldata hash ≡ returns info)
          × IsTapeOf d calldata hash info)
unfolding tape_init_info
tape_init_info-cases d calldata hash signed fits = elim (order-cases (length d.signature) 64) [
  | less short ↦ inl (inl short, tape_init_info-short d calldata hash short)
  | same e ↦ long_enough (omega arith)
  | more long ↦ long_enough (omega arith)
]
  where
    long_enough :
        64 ≤ length d.signature
        → (((length d.signature < 64) ⊎ (length calldata % 8 ≢ 0))
            × (tape_init_info d calldata hash ≡ panics))
          ⊎ ((64 ≤ length d.signature)
              × (info : OlaTapeInitInfo) × (tape_init_info d calldata hash ≡ returns info)
              × IsTapeOf d calldata hash info)
    long_enough long =
        let (r, r_cut, r_four, r_back) = part_of 0 d.signature signed (omega arith) long in
        let (s, s_cut, s_four, s_back) = part_of 32 d.signature signed (omega arith) long in
        let first = slice_whole 0 32 d.signature (omega arith) in
        let second = slice_whole 32 64 d.signature long in
        elim (u64s_to_bytes-bytes_to_u64s calldata fits) [
          | inl (ragged, bad) ↦ inl (inr ragged, rw (first, second, r_cut, s_cut, bad) refl)
          | inr (words, cut, back, len) ↦ inr (
            long,
            _,
            rw (first, second, r_cut, s_cut, cut, r_four, s_four) refl,
            record {
              version = refl;
              origin = refl;
              nonce = refl;
              calldata_bytes = back;
              r_bytes = r_back;
              s_bytes = s_back;
              hash_words = refl;
            },
          )
        ]
