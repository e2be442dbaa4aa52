-- ===== src/Watchlist/History.antt =====
-- The calls on a watchlist, and any sequence of them: rust/crates/watchlist_engine/src/lib.rs.
use ibkr_bot.Base.{ℕ, some, List, [], ◌∷◌}
use ibkr_bot.Base.Float.{Float}
use ibkr_bot.Core.Types.{SymbolId, DailyContext, MtfAnalysis, RegimeState}
use ibkr_bot.Metrics.{MetricsCollector}
use ibkr_bot.Watchlist.Tiers.{
  Watchlist, update_regime, update_symbol_context, update_tick_count, touch,
}
use ibkr_bot.Watchlist.Moves.{add_candidate, promote, demote}
use ibkr_bot.Watchlist.Lifecycle.{process_lifecycle}

pub data Call (F : Type 0) : Type 0 where
  adds : SymbolId → ℕ → Call F
  promotes : SymbolId → Call F
  demotes : SymbolId → Call F
  cycles : ℕ → ℕ → F → ℕ → Call F
  ticks : SymbolId → Call F
  touches : SymbolId → ℕ → Call F
  informs : SymbolId → DailyContext F → MtfAnalysis → Call F
  sets_regime : RegimeState → Call F

module _ {F : Type 0} ⦃f : Float F⦄ where
  unfoldable pub step : Watchlist F → MetricsCollector → Call F → Watchlist F
  step w m (adds id cooldown) = (add_candidate w id cooldown m).1
  step w m (promotes id) = (promote w id (some m)).1
  step w m (demotes id) = (demote w id).1
  step w m (cycles demotion eviction quality volume) =
      (process_lifecycle w demotion eviction quality volume m).0
  step w m (ticks id) = update_tick_count w id
  step w m (touches id ts) = touch w id ts
  step w m (informs id daily_ctx mtf) = update_symbol_context w id daily_ctx mtf
  step w m (sets_regime regime) = update_regime w regime

  -- What the metrics hold decides nothing.
  unfoldable pub run : MetricsCollector → Watchlist F → List (Call F) → Watchlist F
  unfolding step
  run m w [] = w
  run m w (call ∷ calls) = run m (step w m call) calls
