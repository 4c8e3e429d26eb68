-- ===== src/Updates/Sealed.antt =====
-- What is sealed of a batch that was built from the start (ola_core/src/sequencer/updates/mod.rs).
use ola_os.Base.{
  ℕ, suc, ◌≡◌, refl, sym, ap, ◌∙◌, List, [], ◌∷◌, ◌++◌, returns, All, map, length, drop,
  drop-length-append,
}
use ola_os.Base.Map.{contains}
use ola_os.Types.Log.{StorageKey, storage_key_ord}
use ola_os.Types.Execution.{TransactionExecutionResult}
use ola_os.Dedup.Final.{first_read, last_value, differs, net_writes}
use ola_os.TxData.{Value}
use ola_os.Updates.{
  UpdatesManager, BaseSystemContractsHashes, new, new_miniblock, seal_miniblock_command,
}
use ola_os.Updates.Pending.{all_transactions}
use ola_os.Updates.Runs.{
  Update, IsSound, run, run-Gathers, logs_of, transactions_of, transaction_of,
}
use mathlib.Core.List.{map-append}

length-map : (rs : List TransactionExecutionResult) → length (map transaction_of rs) ≡ length rs
length-map [] = refl
length-map (r ∷ rs) = ap suc (length-map rs)

-- The transactions from the command's first index on are those of the open miniblock.
command_drop :
    (batch number : ℕ) (u : UpdatesManager)
    → let c = seal_miniblock_command batch number u in
      drop c.first_tx_index (map transaction_of (all_transactions u))
      ≡ map transaction_of c.miniblock.executed_transactions
unfolding seal_miniblock_command
command_drop batch number u =
    let closed = u.l1_batch.executed_transactions in
    let open_ones = u.miniblock.executed_transactions in
    ap (drop (length closed)) (map-append transaction_of closed open_ones)
    ∙ ap (λ n. drop n (map transaction_of closed ++ map transaction_of open_ones))
        (sym (length-map closed))
    ∙ drop-length-append (map transaction_of closed) (map transaction_of open_ones)

module _ (encode : List Value → List ℕ) (hash_bytecode : List ℕ → ℕ) (timestamp : ℕ)
    (hashes : BaseSystemContractsHashes) (version : ℕ) where
  -- After any sound updates of a new batch, the command that seals the open miniblock has the
  -- transactions from its first index to the end of all that were given; and a key is in the
  -- batch's deduplicated writes exactly if the value that the logs leave there differs from the
  -- one that they read there first.
  pub new_batch_sealed :
      (xs : List Update) (batch number : ℕ) (k : StorageKey)
      → All IsSound xs
      → (u : UpdatesManager) × (run encode hash_bytecode xs (new timestamp hashes version)
          ≡ returns u)
        × (drop (seal_miniblock_command batch number u).first_tx_index (transactions_of xs)
            ≡ map transaction_of
                (seal_miniblock_command batch number u).miniblock.executed_transactions)
        × (contains k u.storage_writes_deduplicator.modified_keys
            ≡ differs (first_read k (logs_of xs)) (last_value k (logs_of xs)))
  unfolding new new_miniblock
  new_batch_sealed xs batch number k h =
      let (u, ran, g) = run-Gathers encode hash_bytecode xs (new timestamp hashes version) h in
      (
        u,
        ran,
        ap (drop (seal_miniblock_command batch number u).first_tx_index) (sym g.transactions)
            ∙ command_drop batch number u,
        ap (λ d. contains k d.modified_keys) g.deduplicated ∙ net_writes k (logs_of xs),
      )
