-- ===== src/Convert/Chunks.antt =====
-- Bytes cut into words of one size, and words laid out as bytes (utils/src/convert.rs).
use ola_os.Base.{
  ℕ, zero, suc, ◌+◌, ◌*◌, ◌/◌, ◌%◌, ◌<◌, ◌≤◌, ◌^◌, ◌≡◌, refl, sym, ap, ◌∙◌, subst, List, [], ◌∷◌,
  ◌++◌, map, arith, length, length-append, All, All-take, All-drop, drop, take, take-append-drop,
  length-take, length-drop, returns, panics, flat_map, order-cases, less, same, more, drop-drop,
  drop_all, ◌⊎◌, inl, inr, ◌≢◌,
}
use ola_os.Convert.{
  to_be_bytes, from_be_bytes, chunks_from, u64s_to_bytes, bytes_to_u64s, be_words_to_bytes,
  bytes_to_be_words, h256_to_u64_array, u64_array_to_h256,
}
use ola_os.Convert.Bytes.{
  space, IsByte, length-to_be_bytes, from_be_bytes-to_be_bytes, to_be_bytes-from_be_bytes,
}

chunks_from-append {ℓ} :
    {A : Type ℓ} (last room : ℕ) (xs ys : List A)
    → length xs ≡ suc room
    → chunks_from last room (xs ++ ys) ≡ xs ∷ chunks_from last last ys
unfolding chunks_from
chunks_from-append last room [] ys h = absurd (omega arith)
chunks_from-append last zero (x ∷ []) ys h = refl
chunks_from-append last zero (x ∷ y ∷ xs) ys h = absurd (omega arith)
chunks_from-append last (suc room) (x ∷ xs) ys h =
    rw (chunks_from-append last room xs ys (omega arith)) refl

module _ (last : ℕ) where
  abbrev words_of : List ℕ → List ℕ
  words_of bytes = map from_be_bytes (chunks_from last last bytes)

  abbrev bytes_of : List ℕ → List ℕ
  bytes_of words = flat_map (to_be_bytes (suc last)) words

  words_of-append :
      (w bytes : List ℕ)
      → length w ≡ suc last
      → words_of (w ++ bytes) ≡ from_be_bytes w ∷ words_of bytes
  words_of-append w bytes h = ap (map from_be_bytes) (chunks_from-append last last w bytes h)

  words_of_cut :
      (bytes : List ℕ)
      → suc last ≤ length bytes
      → words_of bytes ≡ from_be_bytes (take (suc last) bytes) ∷ words_of (drop (suc last) bytes)
  words_of_cut bytes h =
      ap words_of (sym (take-append-drop (suc last) bytes))
      ∙ words_of-append (take (suc last) bytes) (drop (suc last) bytes)
          (length-take (suc last) bytes h)

  words_of-bytes_of :
      (words : List ℕ) → All (λ n. n < space (suc last)) words → words_of (bytes_of words) ≡ words
  words_of-bytes_of [] h = unfold chunks_from in refl
  words_of-bytes_of (n ∷ words) h =
      rw
        (
          words_of-append (to_be_bytes (suc last) n) (bytes_of words)
              (length-to_be_bytes (suc last) n),
          from_be_bytes-to_be_bytes (suc last) n h.0,
          words_of-bytes_of words h.1,
        )
        refl

  length-bytes_of : (words : List ℕ) → length (bytes_of words) ≡ length words * suc last
  length-bytes_of [] = omega arith
  length-bytes_of (n ∷ words) = ground (
    arith,
    length-append (to_be_bytes (suc last) n) (bytes_of words),
    length-to_be_bytes (suc last) n,
    length-bytes_of words,
  )

  bytes_of-words_of :
      (k : ℕ) (bytes : List ℕ)
      → All IsByte bytes
      → length bytes ≡ k * suc last
      → (bytes_of (words_of bytes) ≡ bytes) × (length (words_of bytes) ≡ k)
  bytes_of-words_of zero [] h e = unfold chunks_from in (refl, omega arith)
  bytes_of-words_of zero (b ∷ bytes) h e = absurd (ground arith)
  bytes_of-words_of (suc k) bytes h e =
      let w = take (suc last) bytes in
      let rest = drop (suc last) bytes in
      let width : length w ≡ suc last = length-take (suc last) bytes (ground arith) in
      let left : length rest ≡ k * suc last = ground (arith, length-drop (suc last) bytes) in
      let (back, count) = bytes_of-words_of k rest (All-drop IsByte (suc last) bytes h) left in
      let word : to_be_bytes (suc last) (from_be_bytes w) ≡ w =
        subst (λ n. to_be_bytes n (from_be_bytes w) ≡ w) width
          (to_be_bytes-from_be_bytes w (All-take IsByte (suc last) bytes h)) in
      (
        rw (words_of_cut bytes (ground arith), word, back) (take-append-drop (suc last) bytes),
        rw (words_of_cut bytes (ground arith)) (omega (arith, count)),
      )

-- Any words of 64 bits are read back from the bytes that they are laid out as.
pub bytes_to_u64s-u64s_to_bytes :
    (arr : List ℕ) → All (λ n. n < 2 ^ 64) arr → bytes_to_u64s (u64s_to_bytes arr) ≡ returns arr
unfolding bytes_to_u64s u64s_to_bytes
bytes_to_u64s-u64s_to_bytes arr h =
    rw (words_of-bytes_of 7 arr h) (ground (arith, length-bytes_of 7 arr))

-- Bytes whose number is a multiple of 8 are cut into an eighth as many words, and the words are
-- laid out as the same bytes; on any other number of bytes the conversion panics.
pub u64s_to_bytes-bytes_to_u64s :
    (bytes : List ℕ)
    → All IsByte bytes
    → ((length bytes % 8 ≢ 0) × (bytes_to_u64s bytes ≡ panics))
      ⊎ ((words : List ℕ) × (bytes_to_u64s bytes ≡ returns words)
          × (u64s_to_bytes words ≡ bytes)
          × (length words * 8 ≡ length bytes))
unfolding bytes_to_u64s u64s_to_bytes
u64s_to_bytes-bytes_to_u64s bytes h = elim (order-cases 0 (length bytes % 8)) [
  | less bad ↦ inl (ground arith, ground arith)
  | more bad ↦ absurd (omega arith)
  | same whole ↦
      let (back, count) = bytes_of-words_of 7 (length bytes / 8) bytes h (omega arith) in
      inr (words_of 7 bytes, ground arith, back, omega arith)
]

-- The same for words of 256 bits and their 32 bytes.
pub be_words_to_bytes-bytes_to_be_words :
    (bytes : List ℕ)
    → All IsByte bytes
    → ((length bytes % 32 ≢ 0) × (bytes_to_be_words bytes ≡ panics))
      ⊎ ((words : List ℕ) × (bytes_to_be_words bytes ≡ returns words)
          × (be_words_to_bytes words ≡ bytes)
          × (length words * 32 ≡ length bytes))
unfolding bytes_to_be_words be_words_to_bytes
be_words_to_bytes-bytes_to_be_words bytes h = elim (order-cases 0 (length bytes % 32)) [
  | less bad ↦ inl (ground arith, ground arith)
  | more bad ↦ absurd (omega arith)
  | same whole ↦
      let (back, count) = bytes_of-words_of 31 (length bytes / 32) bytes h (omega arith) in
      inr (words_of 31 bytes, ground arith, back, omega arith)
]

-- Words of 256 bits are read back from their bytes.
pub bytes_to_be_words-be_words_to_bytes :
    (words : List ℕ)
    → All (λ n. n < space 32) words
    → bytes_to_be_words (be_words_to_bytes words) ≡ returns words
unfolding bytes_to_be_words be_words_to_bytes
bytes_to_be_words-be_words_to_bytes words h =
    rw (words_of-bytes_of 31 words h) (ground (arith, length-bytes_of 31 words))

four_words : (h : List ℕ) → length h ≡ 32 → words_of 7 h ≡ h256_to_u64_array h
unfolding h256_to_u64_array chunks_from
four_words h size =
    words_of_cut 7 h (omega arith)
    ∙ ap (λ t. from_be_bytes (take 8 h) ∷ t)
        (cut 8 (omega arith)
          ∙ ap (λ t. from_be_bytes (take 8 (drop 8 h)) ∷ t)
              (cut 16 (omega arith)
                ∙ ap (λ t. from_be_bytes (take 8 (drop 16 h)) ∷ t)
                    (cut 24 (omega arith)
                      ∙ ap (λ t. from_be_bytes (take 8 (drop 24 h)) ∷ words_of 7 t)
                          (drop_all 32 h (omega arith)))))
  where
    cut :
        (k : ℕ)
        → k + 8 ≤ 32
        → words_of 7 (drop k h) ≡ from_be_bytes (take 8 (drop k h)) ∷ words_of 7 (drop (k + 8) h)
    cut k e =
        words_of_cut 7 (drop k h) (omega (arith, length-drop k h))
        ∙ ap (λ t. from_be_bytes (take 8 (drop k h)) ∷ words_of 7 t) (drop-drop 8 k h)

-- An `H256` of 32 bytes and its array of four words determine each other.
pub u64_array_to_h256-h256_to_u64_array :
    (h : List ℕ)
    → All IsByte h
    → length h ≡ 32
    → (bytes_to_u64s h ≡ returns (h256_to_u64_array h))
      × (u64_array_to_h256 (h256_to_u64_array h) ≡ h)
unfolding bytes_to_u64s h256_to_u64_array u64_array_to_h256
u64_array_to_h256-h256_to_u64_array h bytes size = (
  rw (four_words h size) (ground arith),
  subst (λ w. u64_array_to_h256 w ≡ h) (four_words h size)
      (bytes_of-words_of 7 4 h bytes (omega arith)).0,
)
