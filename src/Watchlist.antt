-- ===== src/Watchlist.antt =====
-- `Watchlist` of rust/crates/watchlist_engine/src/lib.rs: three tables of symbols, by tier.
pub mod Tiers
pub mod Moves
pub mod Lifecycle
pub mod Valid
pub mod Changes
pub mod Oldest
pub mod History
pub mod Steps
pub mod Turnover
pub mod Descent
pub mod Cycle
mod Tests
