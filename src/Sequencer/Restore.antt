-- ===== src/Sequencer/Restore.antt =====
-- Restoring a batch runs the updates that it had (`restore_state` in
-- ola_core/src/sequencer/sequencer.rs).
use ola_os.Base.{
  ℕ, suc, ◌+◌, ◌%◌, ◌≡◌, refl, sym, ap, ◌∙◌, some, List, [], ◌∷◌, ◌++◌, returns, append_assoc, All,
}
use ola_os.Base.Words.{u32_mod, wrapping_add32}
use ola_os.Types.Tx.{Transaction}
use ola_os.Types.Execution.{VmTxExeResult, ExecutionMetrics, VmPartialExecutionResult}
use ola_os.TxData.{Value}
use ola_os.Updates.{UpdatesManager, push_miniblock, new_miniblock}
use ola_os.Updates.Runs.{Update, executed, pushed, run, update}
use ola_os.Async.{ready}
use ola_os.Sequencer.Io.{SequencerIo, MiniblockReexecuteData, wait_for_new_miniblock_params}
use ola_os.Sequencer.Resolve.{success, include}
use ola_os.Sequencer.Run.{reexecute_txs, reexecute_rest, restore_state}
use ola_os.Sequencer.Calm.{IsSoundTx}
use ola_os.Sequencer.Outcomes.{include-last}

-- Transactions that execute successfully one after the other, from an index in the batch and a world,
-- each under the index after that of the one before; the updates that include them with their
-- results and metrics, and the world and the index after them.
pub data Executes {W B : Type 0} (io : SequencerIo W B)
    : List Transaction → ℕ → W → List Update → W → ℕ → Type 0 where
  no_more : {index : ℕ} {w : W} → Executes io [] index w [] w index
  one_more :
      {tx : Transaction} {txs : List Transaction} {index next : ℕ} {us : List Update} {w w' w'' : W}
      (r : VmTxExeResult) (m tip_metrics : ExecutionMetrics) (tip : VmPartialExecutionResult)
      → io.execute_tx tx index w ≡ returns (w', success r m tip_metrics tip)
      → Executes io txs ((index + 1) % u32_mod) w' us w'' next
      → Executes io (tx ∷ txs) index w (executed tx r m ∷ us) w'' next

-- Miniblocks that are opened with their timestamps and filled.
pub data Refills {W B : Type 0} (io : SequencerIo W B)
    : List MiniblockReexecuteData → ℕ → W → List Update → W → Type 0 where
  no_miniblock : {index : ℕ} {w : W} → Refills io [] index w [] w
  next_miniblock :
      {index next : ℕ} {us vs : List Update} {w w' w'' : W} {miniblock : MiniblockReexecuteData}
      {miniblocks : List MiniblockReexecuteData}
      → Executes io miniblock.txs index w us w' next
      → Refills io miniblocks next w' vs w''
      → Refills io (miniblock ∷ miniblocks) index w (pushed miniblock.timestamp ∷ us ++ vs) w''

-- The timestamp of the last miniblock.
abbrev pub last_timestamp : ℕ → List MiniblockReexecuteData → ℕ
last_timestamp t [] = t
last_timestamp t (miniblock ∷ miniblocks) = last_timestamp miniblock.timestamp miniblocks

-- The updates of a batch that is restored, and the world after them: the first miniblock is open
-- since the given time, and one is opened after the last.
pub data Restores {W B : Type 0} (io : SequencerIo W B)
    : ℕ → List MiniblockReexecuteData → W → List Update → W → Type 0 where
  no_pending : {opened : ℕ} {w : W} → Restores io opened [] w [] w
  pending :
      {opened index timestamp : ℕ} {us vs : List Update} {w w' w'' after : W}
      {first : MiniblockReexecuteData} {miniblocks : List MiniblockReexecuteData}
      → Executes io first.txs 0 w us w' index
      → Refills io miniblocks index w' vs w''
      → io.wait_for_new_miniblock_params (last_timestamp opened miniblocks) w''
        ≡ returns (after, some timestamp)
      → Restores io opened (first ∷ miniblocks) w (us ++ (vs ++ pushed timestamp ∷ [])) after

module _ (encode : List Value → List ℕ) (hash_bytecode : List ℕ → ℕ) {W B : Type 0}
    (io : SequencerIo W B) where
  reexecute_txs-run :
      {txs : List Transaction} {index next : ℕ} {w w' : W} {us : List Update} (u : UpdatesManager)
      → Executes io txs index w us w' next
      → All IsSoundTx txs
      → (v : UpdatesManager) × (reexecute_txs encode hash_bytecode io txs index u w
          ≡ ready w' (v, next))
        × (v.miniblock.timestamp ≡ u.miniblock.timestamp)
        × ((rest : List Update)
            → run encode hash_bytecode (us ++ rest) u ≡ run encode hash_bytecode rest v)
  unfolding reexecute_txs run include update wrapping_add32
  reexecute_txs-run u no_more sound = (u, refl, refl, λ rest. refl)
  reexecute_txs-run {txs = tx ∷ txs} u (one_more r m tip_metrics tip ran more) sound =
      let (v, included, told, closed, since) =
        include-last encode hash_bytecode tx (success r m tip_metrics tip) u sound.0 tt in
      let (v', done, since', continues) = reexecute_txs-run v more sound.1 in
      (v', rw (ran, sound.0.2, included) done, since' ∙ since, λ rest. rw included (continues rest))

  reexecute_rest-run :
      {miniblocks : List MiniblockReexecuteData} {index : ℕ} {w w' : W} {us : List Update}
      (u : UpdatesManager)
      → Refills io miniblocks index w us w'
      → All (λ b. All IsSoundTx b.txs) miniblocks
      → (v : UpdatesManager) × (reexecute_rest encode hash_bytecode io miniblocks index u w
          ≡ ready w' v)
        × (v.miniblock.timestamp ≡ last_timestamp u.miniblock.timestamp miniblocks)
        × ((rest : List Update)
            → run encode hash_bytecode (us ++ rest) u ≡ run encode hash_bytecode rest v)
  unfolding reexecute_rest run update push_miniblock new_miniblock
  reexecute_rest-run u no_miniblock sound = (u, refl, refl, λ rest. refl)
  reexecute_rest-run {miniblocks = b ∷ bs} u (next_miniblock {us = us} {vs = vs} executes refills)
        sound =
      let opened = push_miniblock b.timestamp u in
      let (v, done, since, continues) = reexecute_txs-run opened executes sound.0 in
      let (v', done', last, continues') = reexecute_rest-run v refills sound.1 in
      (
        v',
        rw done done',
        last ∙ ap (λ t. last_timestamp t bs) since,
        λ rest.
            ap (λ xs. run encode hash_bytecode xs opened) (append_assoc us vs rest)
            ∙ continues (vs ++ rest)
            ∙ continues' rest,
      )

-- When the stored transactions are sound and execute successfully again, each under its index in
-- the batch, and the next timestamp comes, restoring a batch does not panic and ends in the world
-- after these calls, and its updates are exactly those of a run that executes the stored
-- transactions in their order with these results, opens each miniblock but the first with its
-- stored timestamp, and opens a new one after them if there is any.
pub restore_state-run :
    {W B : Type 0} (encode : List Value → List ℕ) (hash_bytecode : List ℕ → ℕ)
    (io : SequencerIo W B) (n : ℕ) (miniblocks : List MiniblockReexecuteData) (u : UpdatesManager)
    (w w' : W) (us : List Update)
    → Restores io u.miniblock.timestamp miniblocks w us w'
    → All (λ b. All IsSoundTx b.txs) miniblocks
    → (v : UpdatesManager) × (restore_state encode hash_bytecode io (suc n) miniblocks u w
        ≡ ready w' v)
      × (run encode hash_bytecode us u ≡ returns v)
unfolding restore_state run update wait_for_new_miniblock_params
restore_state-run encode hash_bytecode io n _ u w _ _ no_pending sound = (u, refl, refl)
restore_state-run encode hash_bytecode io n (b ∷ bs) u w _ _
      (pending {timestamp = timestamp} {us = us} {vs = vs} executes refills found) sound =
    let (v, done, since, continues) =
      reexecute_txs-run encode hash_bytecode io u executes sound.0 in
    let (v', done', last, continues') =
      reexecute_rest-run encode hash_bytecode io v refills sound.1 in
    let asked : last_timestamp u.miniblock.timestamp bs ≡ v'.miniblock.timestamp =
      sym (last ∙ ap (λ t. last_timestamp t bs) since) in
    (
      push_miniblock timestamp v',
      rw (done, done', sym asked, found) refl,
      continues (vs ++ pushed timestamp ∷ []) ∙ continues' (pushed timestamp ∷ []),
    )
