-- ===== src/Risk/History.antt =====
-- The calls on a risk state, and any sequence of them: rust/crates/risk_engine/src/lib.rs.
use ibkr_bot.Base.{ℕ, Bool, List, [], ◌∷◌}
use ibkr_bot.Base.Float.{Float}
use ibkr_bot.Core.Types.{SymbolId, CorporateAction}
use ibkr_bot.Core.Events.{PositionData}
use ibkr_bot.Risk.Blocklist.{World}
use ibkr_bot.Risk.State.{
  RiskState, RiskLadderStep, set_risk_ladder, update_pnl, set_corporate_action, block_symbol,
  unblock_symbol, set_monitor_only, check_entry, rebuild_state,
}

pub data Call (F : Type 0) : Type 0 where
  sets_ladder : List (RiskLadderStep F) → Call F
  updates_pnl : F → Call F
  sets_action : SymbolId → CorporateAction → Call F
  blocks : SymbolId → Call F
  unblocks : SymbolId → Call F
  sets_monitor : Bool → Call F
  enters : World → SymbolId → List SymbolId → ℕ → Call F
  rebuilds : List (PositionData F) → Call F

module _ {F : Type 0} ⦃f : Float F⦄ where
  unfoldable pub step : RiskState F → Call F → RiskState F
  step r (sets_ladder ladder) = set_risk_ladder r ladder
  step r (updates_pnl pnl) = update_pnl r pnl
  step r (sets_action id action) = set_corporate_action r id action
  step r (blocks id) = block_symbol r id
  step r (unblocks id) = unblock_symbol r id
  step r (sets_monitor on) = set_monitor_only r on
  step r (enters w id held today) = (check_entry w r id held today).1
  step r (rebuilds positions) = rebuild_state r positions

  unfoldable pub run : RiskState F → List (Call F) → RiskState F
  unfolding step
  run r [] = r
  run r (call ∷ calls) = run (step r call) calls
