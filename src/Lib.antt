-- ===== src/Lib.antt =====
-- ibkr-bot: a trading bot for small shares on Interactive Brokers. This library models the decision
-- logic of its Rust workspace (rust/crates) and proves properties of it.
--
-- Base: shared names. Base/Map is `HashMap` as an association list whose order is one order of
-- iteration, Base/Keys that its keys are distinct; Base/Float is `f64` as an interface with no laws,
-- and `Decimal`, a small concrete instance for runs; Base/Int are signed integers and the additions
-- that wrap; Base/Result is `Result` with its bind.
-- Core (rust/crates/core_types/src): Types and Events are the shared enums and records, Accounting
-- is trade_accounting.rs, TimeBuffer the ring buffer of time_buffer.rs. Its loops get the capacity as
-- fuel; TimeBuffer/Drain shows that this is enough.
-- Metrics (rust/crates/metrics_observability/src/lib.rs): the collector that others count in, with
-- its children Decisions (decision logs, counts, alerts), Latency (the percentile and the hard fail),
-- Journal (the trade journal) and Calibration (slippage).
-- Oms (rust/crates/execution_engine/src/lib.rs): `OrderManagementSystem`. Oms/Order has the state,
-- `place_order` and the broker's reports, Oms/Cancel the cancel flow, Oms/Timeouts the scans,
-- Oms/Sync the reconciliation, Oms/History the calls and runs of them; the other modules prove.
-- Risk (rust/crates/risk_engine/src): Pdt, Exposure, Session, Blocklist, Guards and Sizing model the
-- files of these names, State models `RiskState` of lib.rs, which asks Pdt, Exposure and Blocklist.
-- Guards counts events in the ring buffer of Core. Limits, Reload, Latch, Shares, Ratchet, Blocks and
-- Entry prove.
-- Watchlist (rust/crates/watchlist_engine/src/lib.rs): Tiers has the three tables, Moves
-- `add_candidate`, `promote` and `demote`, Lifecycle `process_lifecycle`; the others prove.
-- Signals: Regime (rust/crates/regime_engine/src/lib.rs) is `RegimeEngine`, Mtf
-- (rust/crates/mtf_engine/src/lib.rs) `MtfEngine`, Context (rust/crates/context_engine/src/lib.rs)
-- `ContextEngine`.
-- Tape (rust/crates/tape_engine/src/lib.rs): `TapeEngine`. State has the symbols' state and the
-- setters, Scores the score, Ledger a fill's position and cost, Entry the gates of
-- `evaluate_entry_logic`, Events `on_event` and the handlers it calls, History the calls and runs of
-- them; Gates, Steps, Sound, Refusals and Position prove, Sample has concrete values. The
-- engine asks the risk state and the guards of Risk.
-- Bridge (rust/crates/bridge_rx/src/lib.rs): Validate is the validation and the priority of an event,
-- Batch the loop over the bytes that were read and the handling of the heartbeat, Bus
-- `process_event`, with tokio's channel as a parameter. The decoder of rmp_serde is a parameter, too;
-- the loop's fuel is the buffer's length, and Stops shows that this is enough. Framing and Delivery
-- prove.
-- Runtime (rust/crates/app_runtime/src/lib.rs): Positions has the positions that the OMS task and the
-- risk task keep, Keys the keys of orders, Orders the orders and sizes of the fast loop, Fast that
-- loop on the tape engine, RiskTask and Settlement the risk task, OmsTask the OMS task on the
-- order system, Slow the slow loop on the watchlist and the signals, Routes the data router and the
-- monitor-only switch of the main task; Agree, Ledgers, Commands, NoEntry, OmsSteps, OmsValid,
-- Resend, Silence and Idle prove. The commands that a task tries to send are a list beside the new
-- state.
--
-- A method that takes `&mut self` returns the new state beside its result; `get_mut` with writes
-- through the reference is `adjust`. Additions of `u64` and `u32` counters wrap, as in a release
-- build. Loops over collections are recursions on lists. What chrono, the file system and the TOML
-- parser give is an argument.
-- The market day and the Eastern time of a timestamp are parameters. `write!` of a u64 or a u32 has
-- fuel 20, the digits of the largest u64. A mutex is its content, without poisoning; the runtime is
-- the build without the feature paper_mode.
-- Not modelled: files, sockets, threads and serialisation, which are I/O or other crates; the
-- calendar, the locale and the dates, which are calls of chrono and tables of texts; and of the
-- runtime the metrics task and the log of slippage. The test of the calendar, the success of a send
-- to the bridge and the conversion of a float to u64 are parameters of the tasks that use them. The
-- configuration is modelled as far as the modelled engines read it.
pub mod Base
pub mod Core
pub mod Metrics
pub mod Oms
pub mod Risk
pub mod Signals
pub mod Bridge
pub mod Tape
pub mod Runtime
pub mod Watchlist
