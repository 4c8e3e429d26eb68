-- ===== src/Types.antt =====
-- The transaction types of types/src that the mempool and the sequencer exchange.
pub mod Tree
pub mod Tx
pub mod Log
pub mod Execution
