-- ===== src/Core.antt =====
-- The crate `core_types` (rust/crates/core_types/src): the shared types, the ring buffer and the
-- accounting of trades.
pub mod Types
pub mod Events
pub mod TimeBuffer
pub mod Accounting
