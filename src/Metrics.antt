-- ===== src/Metrics.antt =====
-- `MetricsCollector` of rust/crates/metrics_observability/src/lib.rs.
pub mod Decisions
pub mod Latency
pub mod Journal
pub mod Calibration
use ibkr_bot.Base.{ℕ, []}
use ibkr_bot.Base.Map.{Map}

pub record MetricsCollector : Type 0 where
  pub reject_counts : Map ℕ ℕ
  pub total_decisions : ℕ
  pub total_entries : ℕ
  pub api_error_count : ℕ
  pub reconnect_count : ℕ
  pub data_quality_events : ℕ
  pub ibkr_subscription_count : ℕ
  pub sla_breach_count : ℕ
  pub symbols_promoted : ℕ
  pub symbols_demoted : ℕ
  pub symbols_evicted : ℕ
  pub cold_symbol_count : ℕ
  pub current_count : ℕ
  pub budget : ℕ

-- The derived `default`.
abbrev pub new_metrics : MetricsCollector
new_metrics = record {
  reject_counts = [];
  total_decisions = 0;
  total_entries = 0;
  api_error_count = 0;
  reconnect_count = 0;
  data_quality_events = 0;
  ibkr_subscription_count = 0;
  sla_breach_count = 0;
  symbols_promoted = 0;
  symbols_demoted = 0;
  symbols_evicted = 0;
  cold_symbol_count = 0;
  current_count = 0;
  budget = 0;
}
