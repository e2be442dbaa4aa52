-- ===== src/Tape/History.antt =====
-- Sequences of calls of the tape engine: rust/crates/tape_engine/src/lib.rs. `shares` and `sizes`
-- are what the other holders of the shared risk state and the fast loop write between the calls.
use ibkr_bot.Base.{ℕ, Bool, List, [], ◌∷◌}
use ibkr_bot.Base.Float.{Float}
use ibkr_bot.Core.Types.{SymbolId, Tier, DailyContext, MtfAnalysis, RegimeState}
use ibkr_bot.Core.Events.{Event}
use ibkr_bot.Risk.Blocklist.{World}
use ibkr_bot.Risk.State.{RiskState}
use ibkr_bot.Tape.State.{
  TapeEngine, update_tier, update_daily_context, update_mtf_analysis, update_regime,
  update_cold_start, set_daily_target_reached,
}
use ibkr_bot.Tape.Events.{on_event}

pub data Call (F : Type 0) : Type 0 where
  events : World → Event F → Call F
  tiers : SymbolId → Tier → Call F
  contexts : DailyContext F → Call F
  analyses : SymbolId → MtfAnalysis → Call F
  regimes : RegimeState → Call F
  cold_starts : SymbolId → Bool → Call F
  targets : Bool → Call F
  shares : RiskState F → Call F
  sizes : ℕ → Call F

module _ {F : Type 0} ⦃f : Float F⦄ (market_day : ℕ → ℕ) where
  unfoldable pub step : TapeEngine F → Call F → TapeEngine F
  unfolding on_event update_tier update_daily_context update_mtf_analysis update_regime
      update_cold_start set_daily_target_reached
  step e (events w event) = (on_event w market_day e event).1
  step e (tiers symbol tier) = update_tier e symbol tier
  step e (contexts ctx) = update_daily_context e ctx
  step e (analyses symbol analysis) = update_mtf_analysis e symbol analysis
  step e (regimes regime) = update_regime e regime
  step e (cold_starts symbol is_surge) = update_cold_start e symbol is_surge
  step e (targets reached) = set_daily_target_reached e reached
  step e (shares r) = record e { risk_state = r }
  step e (sizes n) = record e { last_sizing_shares = n }

  unfoldable pub run : TapeEngine F → List (Call F) → TapeEngine F
  unfolding step
  run e [] = e
  run e (call ∷ calls) = run (step e call) calls
