-- ===== src/Seal/Strict.antt =====
-- Which resolution wins (ola_core/src/sequencer/seal_criteria/mod.rs, conditional_sealer.rs).
use ola_os.Base.{ℕ, max, ◌≡◌, List, [], ◌∷◌, arith, ◌⊎◌}
use ola_os.Seal.{
  SealResolution, no_seal, include_and_seal, exclude_and_seal, unexecutable, stricter, SealData,
  Float64, SequencerConfig, SealCriterion, strictest, resolution,
}

-- How strict a resolution is.
abbrev pub severity : SealResolution → ℕ
severity no_seal = 0
severity include_and_seal = 1
severity exclude_and_seal = 2
severity (unexecutable reason) = 3

severity-stricter : (a b : SealResolution) → severity (stricter a b) ≡ max (severity a) (severity b)
unfolding stricter
severity-stricter a b = ground arith

stricter_assoc : (a b c : SealResolution) → stricter (stricter a b) c ≡ stricter a (stricter b c)
unfolding stricter
stricter_assoc a b c = ground arith

-- The stricter of two resolutions is one of the two, and the one with the greater severity. The
-- choice does not depend on how resolutions are grouped, and `NoSeal` never wins.
pub stricter_lem :
    (a b c : SealResolution)
    → (severity (stricter a b) ≡ max (severity a) (severity b))
      × ((stricter a b ≡ a) ⊎ (stricter a b ≡ b))
      × (stricter (stricter a b) c ≡ stricter a (stricter b c))
      × (stricter no_seal a ≡ a)
      × (stricter a no_seal ≡ a)
unfolding stricter
stricter_lem a b c =
    (severity-stricter a b, ground arith, stricter_assoc a b c, ground arith, ground arith)

module _ (F : Float64) (config : SequencerConfig F) (opened tx_count : ℕ)
    (block_data tx_data : SealData) where
  abbrev pub strictness : List (SealCriterion F) → ℕ
  strictness [] = 0
  strictness (s ∷ ss) = max (severity (s config opened tx_count block_data tx_data)) (strictness ss)

  severity-strictest :
      (ss : List (SealCriterion F)) (so_far : SealResolution)
      → severity (strictest F ss config opened tx_count block_data tx_data so_far)
        ≡ max (severity so_far) (strictness ss)
  unfolding strictest
  severity-strictest [] so_far = omega arith
  severity-strictest (s ∷ ss) so_far =
      let answer = s config opened tx_count block_data tx_data in
      ground
        (arith, severity-strictest ss (stricter so_far answer), severity-stricter so_far answer)

  -- The batch's resolution is as strict as the strictest of its criteria, whatever they are and in
  -- whatever order they stand.
  pub severity-resolution :
      (ss : List (SealCriterion F))
      → severity (
          resolution F
            (record { config = config; sealers = ss })
            opened
            tx_count
            block_data
            tx_data)
        ≡ strictness ss
  unfolding resolution
  severity-resolution ss = omega (arith, severity-strictest ss no_seal)
