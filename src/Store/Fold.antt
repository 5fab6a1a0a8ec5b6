-- ===== src/Store/Fold.antt =====
-- crates/pointlock-store/src/fold.rs: the fold of a run's ledger into its checkpoint view.
pub mod Sites
pub mod State
pub mod Attempts
pub mod Steps
pub mod Exits
pub mod Frames
pub mod Humans
pub mod Apply
pub mod Finish
pub mod Tally
pub mod Ledger
pub mod Replay
pub mod Records
pub mod Evidence
pub mod Intents
pub mod Quiet
pub mod Clean
pub mod Instances
