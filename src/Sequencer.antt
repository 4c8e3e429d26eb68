-- ===== src/Sequencer.antt =====
-- The main loop of the sequencer (ola_core/src/sequencer/sequencer.rs), over the interfaces that it
-- drives.
pub mod Io
pub mod Resolve
pub mod Rounds
pub mod Run
pub mod Calm
pub mod Recorded
pub mod Outcomes
pub mod Accounts
pub mod Batches
pub mod Upgrade
pub mod Liveness
pub mod Served
pub mod Whole
pub mod Ends
pub mod Restore
pub mod Excluded
mod Tests
