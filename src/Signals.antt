-- ===== src/Signals.antt =====
-- The engines that judge the market and a symbol: rust/crates/regime_engine/src/lib.rs,
-- rust/crates/mtf_engine/src/lib.rs and rust/crates/context_engine/src/lib.rs.
pub mod Regime
pub mod Mtf
pub mod Context
mod Tests
