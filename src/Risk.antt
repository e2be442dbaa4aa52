-- ===== src/Risk.antt =====
-- The checks before an entry: rust/crates/risk_engine/src.
pub mod Pdt
pub mod Exposure
pub mod Limits
pub mod Session
pub mod Blocklist
pub mod Sizing
pub mod Guards
pub mod Latch
pub mod State
pub mod History
pub mod Ratchet
pub mod Blocks
pub mod Entry
pub mod Reload
pub mod Shares
mod Tests
mod SizingTests
