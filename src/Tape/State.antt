-- ===== src/Tape/State.antt =====
-- `TapeEngine` and `SymbolState` of rust/crates/tape_engine/src/lib.rs, with the operations of the
-- slow loop. The mutex of the shared risk state is held whenever an operation runs: it is a field.
use ibkr_bot.Base.{ℕ, nat_eq, Bool, false, Option, none, some, List, [], leb, if◌then◌else◌}
use ibkr_bot.Base.Map.{Map, lookup, insert}
use ibkr_bot.Base.Float.{Float}
use ibkr_bot.Base.Int.{ℤ, pos, add_u64}
use ibkr_bot.Core.Types.{
  SymbolId, Tier, c, DailyContext, MtfAnalysis, TapeMetrics, ColdStartState, cold_start,
  warm_active, full_active, RegimeState, normal,
}
use ibkr_bot.Risk.State as Risk
use ibkr_bot.Risk.Sizing.{PricingModel}
use ibkr_bot.Risk.Guards.{GuardConfig, GuardEvaluator, new_guard_evaluator}

-- rust/crates/core_types/src/config.rs
pub record TapeWeights (F : Type 0) : Type 0 where
  pub w_r : F
  pub w_a : F
  pub w_lp : F
  pub w_spr : F
  pub w_abs : F
  pub w_bls : F

pub record TapeConfig (F : Type 0) : Type 0 where
  pub tape_threshold_normal : F
  pub tape_threshold_post_target : F
  pub tape_threshold_warm : F
  pub weights : TapeWeights F

abbrev pub ring_buffer_capacity : ℕ
ring_buffer_capacity = 2000

abbrev pub ring_buffer_window_secs : ℕ
ring_buffer_window_secs = 30

pub record SymbolState (F : Type 0) : Type 0 where
  pub tier : Tier
  pub daily_context : Option (DailyContext F)
  pub mtf_analysis : Option MtfAnalysis
  pub tape : TapeMetrics F
  pub last_trade_price : F
  pub cold_start_state : ColdStartState
  pub ticks_in_warm_state : ℕ
  pub trade_history : List (ℕ × F)
  pub position : ℤ
  pub avg_cost : F
  pub realized_pnl : F
  pub current_unrealized_pnl : F

pub record TapeEngine (F : Type 0) : Type 0 where
  pub risk_state : Risk.RiskState F
  pub regime_state : RegimeState
  pub guard_evaluator : GuardEvaluator F
  pub pricing_model : PricingModel F
  pub config : TapeConfig F
  pub symbol_states : Map SymbolId (SymbolState F)
  pub global_realized_pnl : F
  pub global_unrealized_pnl : F
  pub daily_target_reached : Bool
  pub last_sizing_shares : ℕ

module _ {F : Type 0} ⦃f : Float F⦄ where
  abbrev pub default_tape : TapeMetrics F
  default_tape = record {
    price = f.lit 0 0;
    bid = f.lit 0 0;
    ask = f.lit 0 0;
    bid_size = 0;
    ask_size = 0;
    volume = 0;
    rate_ticks_per_sec = f.lit 0 0;
    aggressive_buy_ratio = f.lit 0 0;
    large_print_score = f.lit 0 0;
    absorption_score = f.lit 0 0;
    buy_limit_support_score = f.lit 0 0;
    spread_cents = f.lit 0 0;
    is_reversal = false;
    total_score = f.lit 0 0;
    vwap = f.lit 0 0;
    atr_1m = f.lit 0 0;
    vol_1m = f.lit 0 0;
    avg_depth_top3 = f.lit 0 0;
    atr = f.lit 0 0;
  }

  -- `SymbolState::new`, and `SymbolState::default`.
  abbrev pub new_symbol_state : SymbolState F
  new_symbol_state = record {
    tier = c;
    daily_context = none;
    mtf_analysis = none;
    tape = default_tape;
    last_trade_price = f.lit 0 0;
    cold_start_state = cold_start;
    ticks_in_warm_state = 0;
    trade_history = [];
    position = pos 0;
    avg_cost = f.lit 0 0;
    realized_pnl = f.lit 0 0;
    current_unrealized_pnl = f.lit 0 0;
  }

  abbrev pub new_tape_engine :
      Risk.RiskState F → GuardConfig F → TapeConfig F → PricingModel F → TapeEngine F
  new_tape_engine risk_state guard_config config pricing_model = record {
    risk_state = risk_state;
    regime_state = normal;
    guard_evaluator = new_guard_evaluator guard_config;
    pricing_model = pricing_model;
    config = config;
    symbol_states = [];
    global_realized_pnl = f.lit 0 0;
    global_unrealized_pnl = f.lit 0 0;
    daily_target_reached = false;
    last_sizing_shares = 0;
  }

  -- `entry(symbol).or_default()`, read.
  unfoldable pub state_or_default : Map SymbolId (SymbolState F) → SymbolId → SymbolState F
  state_or_default states symbol = elim (lookup symbol states) [
    | some s ↦ s
    | none ↦ new_symbol_state
  ]

  -- `get_mut_state`, followed by writes through the reference.
  unfoldable pub with_state :
      TapeEngine F → SymbolId → (SymbolState F → SymbolState F) → TapeEngine F
  unfolding state_or_default
  with_state e symbol change = record e {
    symbol_states =
        insert symbol (change (state_or_default e.symbol_states symbol)) e.symbol_states;
  }

  unfoldable pub update_tier : TapeEngine F → SymbolId → Tier → TapeEngine F
  unfolding with_state
  update_tier e symbol tier = with_state e symbol (λ s. record s { tier = tier })

  unfoldable pub update_daily_context : TapeEngine F → DailyContext F → TapeEngine F
  unfolding with_state
  update_daily_context e ctx =
      with_state e ctx.symbol_id (λ s. record s { daily_context = some ctx })

  unfoldable pub update_mtf_analysis : TapeEngine F → SymbolId → MtfAnalysis → TapeEngine F
  unfolding with_state
  update_mtf_analysis e symbol analysis =
      with_state e symbol (λ s. record s { mtf_analysis = some analysis })

  -- The `match` of `update_cold_start`, on one state.
  unfoldable pub warm_step : ColdStartState → SymbolState F → SymbolState F
  warm_step cold_start s = record s { cold_start_state = warm_active; ticks_in_warm_state = 0 }
  warm_step warm_active s =
      let ticks = add_u64 s.ticks_in_warm_state 1 in
      record s {
        ticks_in_warm_state = ticks;
        cold_start_state = if leb 100 ticks then full_active else warm_active;
      }
  warm_step full_active s = s

  unfoldable pub cold_start_step : Bool → SymbolState F → SymbolState F
  unfolding warm_step
  cold_start_step is_surge s =
      if is_surge
      then record s { cold_start_state = full_active }
      else warm_step s.cold_start_state s

  unfoldable pub update_cold_start : TapeEngine F → SymbolId → Bool → TapeEngine F
  unfolding with_state cold_start_step
  update_cold_start e symbol is_surge = with_state e symbol (cold_start_step is_surge)

module _ {F : Type 0} where
  unfoldable pub update_regime : TapeEngine F → RegimeState → TapeEngine F
  update_regime e regime = record e { regime_state = regime }

  unfoldable pub set_daily_target_reached : TapeEngine F → Bool → TapeEngine F
  set_daily_target_reached e reached = record e { daily_target_reached = reached }

unfoldable pub should_terminate : {F : Type 0} ⦃f : Float F⦄ → TapeEngine F → Bool
unfolding Risk.should_terminate
should_terminate e = Risk.should_terminate e.risk_state
