-- ===== src/Sequencer/Ends.antt =====
-- A batch ends while transactions keep coming (`process_l1_batch` in
-- ola_core/src/sequencer/sequencer.rs with the criteria of seal_criteria).
use ola_os.Base.{ℕ, ◌+◌, ◌<◌, ◌≤◌, ◌≡◌, some, List}
use ola_os.Base.Words.{u64_mod}
use ola_os.Types.Tx.{Transaction}
use ola_os.TxData.{Value}
use ola_os.Updates.{UpdatesManager}
use ola_os.Seal.{Float64, SealManager, SequencerConfig, default_sealers, bound, tx_encoding_space}
use ola_os.Async.{ready, Async}
use ola_os.Sequencer.Io.{SequencerIo}
use ola_os.Sequencer.Liveness.{count, IsServing, FitsIn}
use ola_os.Sequencer.Served.{IsSized}

module _ (F : Float64) (sealer : SealManager F) (message : List ℕ) (config : SequencerConfig F)
    (standard : sealer.conditional_sealer
      ≡ some (record { config = config; sealers = default_sealers F message }))
    (encode : List Value → List ℕ) (hash_bytecode : List ℕ → ℕ) (hex_encode : List ℕ → List ℕ)
    (sane : bound F tx_encoding_space config.reject_tx_at_geometry_percentage ≤ tx_encoding_space)
    {W B : Type 0} {Open : W → Type 0} {Held : Transaction → W → Type 0} (io : SequencerIo W B)
    (serving : IsServing
      (FitsIn F sealer message config standard encode hash_bytecode)
      Open
      Held
      io) where
  -- A computation that ends with a batch that has a transaction.
  abbrev pub Ends : Async W UpdatesManager → W → Type 0
  Ends m w = (w' : W) × (v : UpdatesManager) × (m w ≡ ready w' v) × (0 < count v)

  -- The batch has room for more rounds than it needs.
  record IsRoomy (n : ℕ) (u : UpdatesManager) : Type 0 where
    sized : IsSized u
    open_slots : count u < config.transaction_slots
    enough : config.transaction_slots ≤ count u + n
    unwrapped : config.transaction_slots < u64_mod
