-- ===== src/Expr.antt =====
-- crates/pointlock-expr: the expressions of flows and their evaluation.
pub mod Syntax
pub mod Scope
pub mod Flags
pub mod Eval
pub mod Laws
pub mod Types
pub mod Infer
pub mod Soundness
pub mod Check
pub mod Dynamic
pub mod Clean
