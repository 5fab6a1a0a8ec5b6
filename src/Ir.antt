-- ===== src/Ir.antt =====
-- crates/pointlock-ir: the types that the other crates share.
pub mod Vocab
pub mod Json
pub mod Ids
pub mod RunPath
pub mod Record
pub mod RunLog
pub mod Wire
