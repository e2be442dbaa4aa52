-- ===== src/Tape.antt =====
-- The fast loop's engine: rust/crates/tape_engine/src/lib.rs.
pub mod State
pub mod Scores
pub mod Ledger
pub mod Entry
pub mod Events
pub mod Gates
pub mod History
pub mod Steps
pub mod Sound
pub mod Refusals
pub mod Position
pub mod Sample
mod Tests
