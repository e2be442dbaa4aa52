-- ===== src/Bridge.antt =====
-- The receiver of the bridge's events: rust/crates/bridge_rx/src/lib.rs.
pub mod Validate
pub mod Batch
pub mod Bus
pub mod Framing
pub mod Stops
pub mod Delivery
mod Tests
