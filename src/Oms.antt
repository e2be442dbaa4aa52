-- ===== src/Oms.antt =====
-- `OrderManagementSystem` of rust/crates/execution_engine/src/lib.rs. A method that takes `&mut self`
-- returns the new system beside its result; what `get_mut` reaches is written back by `adjust`.
-- The broker's reports on an order are in Oms/Order, the reconciliation in Oms/Sync.
pub mod Order
pub mod Cancel
pub mod Timeouts
pub mod Sync
pub mod History
pub mod Ids
pub mod Valid
pub mod Steps
pub mod Flow
pub mod Fills
pub mod Expiry
pub mod Reconcile
pub mod Matched
mod Tests
