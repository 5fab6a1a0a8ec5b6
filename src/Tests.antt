-- ===== src/Tests.antt =====
-- Concrete runs: each theorem applied to them.
mod Ledger
mod Fold
mod Store
mod Judge
mod Expr
mod Paths
mod Resume
mod Reread
mod Verdicts
