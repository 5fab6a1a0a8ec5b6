-- ===== src/Store.antt =====
-- crates/pointlock-store: the event ledger of a run and what is materialized from it.
pub mod Fold
pub mod Equality
pub mod Db
pub mod Append
pub mod Verify
pub mod Sound
pub mod Commit
pub mod Preserve
pub mod Shape
pub mod Respond
pub mod Consistent
pub mod History
pub mod Decided
pub mod Arbitration
pub mod Refines
pub mod Accepted
pub mod Progress
