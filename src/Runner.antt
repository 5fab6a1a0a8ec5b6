-- ===== src/Runner.antt =====
-- crates/pointlock-runner: the pure parts of the engine.
pub mod Judge
pub mod Rules
pub mod Predicates
pub mod Verdicts
pub mod Keys
pub mod Descent
pub mod Facts
pub mod Harvest
pub mod Spans
pub mod Resume
pub mod Waits
pub mod Watermark
