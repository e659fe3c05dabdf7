-- ===== src/Dynamic/Turn.antt =====
-- A turn of crates/caw-orchestrator/src/dynamic.rs: its state, what it calls, and the monad of its
-- steps. Logging is left out, and of the evaluator's events those are kept that the turn records.
pub mod Monad
pub mod Models
pub mod Scores
pub mod Retry
pub mod Signals
pub mod Refine
pub mod Hits
pub mod Journal
pub mod Run
pub mod Tests
