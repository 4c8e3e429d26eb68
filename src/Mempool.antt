-- ===== src/Mempool.antt =====
-- The mempool crate (mempool/src): the transactions of one account, and the store with its
-- priority queue of accounts.
pub mod Account
pub mod Store
pub mod Pointers
pub mod Invariant
pub mod Insert
pub mod Next
pub mod Rollback
pub mod Reject
pub mod Collect
mod Tests
