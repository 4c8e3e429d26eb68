-- ===== src/Lib.antt =====
-- Verification of OlaOS, the node of a zero-knowledge rollup: transactions enter a mempool, the
-- sequencer takes them from it, executes them into miniblocks and batches, and seals those.
--
-- Mempool (mempool/src): the store of pending transactions. Account models types.rs (the
--   transactions of one account and the score that queues it), Store models mempool_store.rs: a
--   HashMap or BTreeMap is a map sorted by its key, a BTreeSet is such a map to the unit type, and
--   an operation that can panic returns an Outcome. Invariant states when a store is well formed,
--   Pointers says how the queue follows the accounts, and Insert, Next, Rollback, Reject and Collect
--   have the operations' theorems. Rollback and Reject also model MempoolIO::rollback and
--   MempoolIO::reject of ola_core/src/sequencer/io/mempool.rs.
-- MempoolIo (ola_core/src/sequencer/io/mempool.rs, io/common.rs): the sequencer's waiting. The
--   clock's readings and what other tasks do to the mempool meanwhile are parameters. Clock is
--   about sleep_past, Poll about wait_for_next_tx.
-- Dedup (types/src/storage_writes_deduplicator.rs): the net storage writes of a batch, with the
--   undo log of a dry run. Rollback, Final and Metrics have the theorems on the undo log, on the
--   final state and on the counters.
-- Types (types/src): transactions (Tx), storage logs and keys (Log), what an
--   execution leaves (Execution).
-- Updates (ola_core/src/sequencer/updates): what a batch and its open miniblock have gathered, with
--   the results of Types.Execution, the deduplicator and the size of TxData. Pending is about
--   closing a miniblock, Runs about any sequence of updates, Sealed about the sealing command.
-- Seal (ola_core/src/sequencer/seal_criteria): when a batch and a miniblock are sealed. Floats and
--   the clock are parameters. Strict is about the strictest resolution, Batch about the decision of
--   the default criteria, Timeout about the sealers that read the clock.
-- SortStorage (ola_core/src/sequencer/io/sort_storage_access.rs): the storage accesses of a batch
--   reduced to one query for each slot, with the parallel sort as a parameter. Slot compares the
--   history of a slot with a storage cell that has an undo log.
-- Convert (utils/src/convert.rs): numbers, bytes and words. Bytes has the bytes of one number,
--   Chunks the words of a byte string, Bytecode the bytecode from its hexadecimal lines, with
--   `hex::decode` as a parameter.
-- TxData (vm/src/transaction_data.rs): a transaction as the virtual machine takes it, with the ABI
--   encoder and the bytecode hash as parameters; Size has the number of its words.
-- Sequencer (ola_core/src/sequencer/sequencer.rs): the main loop over an interface (Io) of what
--   it drives, the SequencerIO trait of io/mod.rs, the batch executor, the object store, the
--   clock and the stop signal. A call of it changes a world and may panic; Async has the loop's
--   computations, which may also be canceled or still wait. Resolve models what becomes of an
--   executed transaction, Rounds the rounds of a batch, Run restoring and the sequence of
--   batches. Recorded is an interface that keeps a record; Calm, Outcomes, Accounts, Batches,
--   Upgrade and Whole account for the transactions of a batch, Liveness, Served and Ends show
--   that it ends, Restore is about restoring, Excluded about transactions that are not included.
-- Executor (ola_core/src/sequencer/batch_executor/mod.rs): the executor's commands and what it makes
--   of a transaction and of the virtual machine's answers (vm/src/vm.rs, types/src/events.rs,
--   types/src/storage/log.rs). The virtual machine of ola_executor is a parameter. Tape is about
--   the machine's input, Commands models the loop, Answers is about its answers.
-- Request (types/src/request.rs, utils/src/bytecode.rs, ola_core/src/api_server/tx_sender/mod.rs,
--   web3/state.rs): requests read from bytes and their checks. The rlp crate, the hash and the
--   program decoder are parameters. Reading has the results of reading, Bytes the reading itself,
--   Inversion and Accepted what is accepted, Submit the checks of a submitted transaction.
-- RevertReason (vm/src/errors): why a transaction is rejected, and the text of it.
-- TreeStorage (merkle_tree/src/storage.rs, with the data of types/src/merkle_tree.rs in
--   Types.Tree): the storage of the merkle tree, its pending changes and its numbering of leaves.
--   Numbered says when leaves are numbered, Walks is about one log, Walked about a batch of them,
--   Pending about saving, Kept about the whole. The database is a map, and bincode's keys are a
--   parameter: what is assumed of them is that they are none of the leaves that occur.
-- TreeConfig (merkle_tree/src/tree_config.rs): the empty tree. Its depth and the hasher are
--   parameters. EmptyTree is about its shape.
-- MergeJoin (merkle_tree/src/iter_ext/merge_join_with_max_predecessor.rs): the iterator that merges
--   two others, as a state with the items that they still have. Choice is about the item that it
--   chooses next, Steps about one item, Merged about all that it yields.
-- SealLogic (ola_core/src/sequencer/io/seal_logic.rs): what sealing a miniblock writes to the
--   database. Groups is about grouping by transaction, Miniblock about a miniblock's writes, Indexed
--   about the updates of a batch up to its seal, Batch models the writes of a batch. The database
--   and the hashes are parameters. Whole is about sealing a batch, and
--   Agree compares its two deduplications of the logs: History is about the logs of one slot, Slots
--   and OfKey about the groups of queries, Stamps and Sorting about the parallel sort, which is a
--   parameter with what its documentation says, Counting about the writes.
-- InitialWrites (ola_core/src/sequencer/io/common.rs): the indices of initial writes that have none.
--   Consecutive is about their order.
-- MempoolFetcher (ola_core/src/sequencer/mempool_actor.rs): the task that fills the mempool, over an
--   interface of the database, the stop signal and the other tasks. Safe is about all its rounds.
-- RocksdbStorage (state/src/rocksdb.rs): the sequencer's copy of the state. Follows compares it with
--   a replay of the batches in Postgres, which are a parameter, like the hash of a slot.
-- Base: maps and sets as sorted lists (Map), total orders (Order), panics as values (Panics),
--   machine words (Words), Boolean tests (Tests).
--
-- Bounds and fuel: the loop of wait_for_next_tx runs poll_iters times, as in the source. The
-- sequencer's loops run on fuel and still wait when it has run out, since they wait for as long as
-- nothing comes; as much fuel as a batch has slots ends it while transactions come. Machine words
-- wrap at 2^32 and 2^64 as in a release build, and the wrap is written out where a program's
-- counter could reach it.
--
-- Not modelled: logging (but a log line that takes the hash of a transaction panics in the model
-- as it does in the source, if the transaction has no input), the order in which a HashMap yields
-- its entries (maps are listed by key here), databases, RPC, external virtual machines and
-- provers, and serialisation.
pub mod Async
pub mod Base
pub mod Convert
pub mod Dedup
pub mod Executor
pub mod InitialWrites
pub mod Mempool
pub mod MempoolFetcher
pub mod MempoolIo
pub mod MergeJoin
pub mod Request
pub mod RevertReason
pub mod RocksdbStorage
pub mod Seal
pub mod SealLogic
pub mod Sequencer
pub mod SortStorage
pub mod TreeConfig
pub mod TreeStorage
pub mod TxData
pub mod Types
pub mod Updates
