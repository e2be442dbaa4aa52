-- ===== src/Runtime.antt =====
-- The tasks that connect the engines: rust/crates/app_runtime/src/lib.rs.
pub mod Positions
pub mod Agree
pub mod Ledgers
mod Keys
pub mod Orders
pub mod Fast
pub mod Commands
pub mod NoEntry
pub mod RiskTask
pub mod Routes
pub mod OmsTask
mod OmsSteps
pub mod Resend
pub mod OmsValid
pub mod Silence
pub mod Slow
pub mod Idle
pub mod Settlement
mod OmsTests
mod SlowTests
mod Tests
