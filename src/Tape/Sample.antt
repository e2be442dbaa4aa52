-- ===== src/Tape/Sample.antt =====
-- Concrete values for runs of the engine and of the tasks: an engine whose symbol 7 passes the gates,
-- and events of that symbol.
use ibkr_bot.Base.{ℕ, nat_eq, true, some, none, [], ◌∷◌, ◌/◌}
use ibkr_bot.Base.Float.{Decimal, decimal_float}
use ibkr_bot.Core.Types.{
  LiquidityConfig, a, bid, play, full_active, TapeMetrics, DailyContext, MtfAnalysis,
}
use ibkr_bot.Core.Events.{Event, EventKind, TickData, FillData}
use ibkr_bot.Risk.Blocklist.{World, missing}
use ibkr_bot.Risk.Sizing.{PricingModel}
use ibkr_bot.Risk.Guards.{default_config}
use ibkr_bot.Risk.State.{RiskState, new_risk_state}
use ibkr_bot.Tape.State.{
  TapeConfig, SymbolState, TapeEngine, new_tape_engine, default_tape, new_symbol_state,
}

abbrev pub cents : ℕ → Decimal
cents n = decimal_float.lit n 2

abbrev pub sample_world : World
sample_world = record { file = missing; at_most = λ x y. true; today = "2025-03-10"; now = 100 }

abbrev pub days : ℕ → ℕ
days ts = ts / 86_400_000_000

abbrev pub loose : LiquidityConfig Decimal
loose = record {
  target_price_min = cents 100;
  target_price_max = cents 2500;
  max_spread_pct = cents 5;
  min_avg_daily_volume = 0;
  min_addv_usd = cents 0;
}

abbrev pub sample_risk : RiskState Decimal
sample_risk = new_risk_state sample_world (cents 50000) loose

abbrev pub sample_config : TapeConfig Decimal
sample_config = record {
  tape_threshold_normal = cents 0;
  tape_threshold_post_target = cents 100;
  tape_threshold_warm = cents 200;
  weights = record {
    w_r = cents 100;
    w_a = cents 0;
    w_lp = cents 0;
    w_spr = cents 0;
    w_abs = cents 0;
    w_bls = cents 0;
  };
}

abbrev pub free : PricingModel Decimal
free = record {
  commission_per_share = cents 0;
  sec_fee_rate = cents 0;
  taf_rate = cents 0;
  slippage_alpha = cents 0;
  slippage_beta = cents 0;
  min_net_profit_usd = cents 0;
}

abbrev pub fresh_engine : TapeEngine Decimal
fresh_engine = new_tape_engine sample_risk default_config sample_config free

abbrev pub in_play : DailyContext Decimal
in_play = record {
  symbol_id = 7;
  state = play;
  volume_profile = record { current_volume = 9000; avg_20d_volume = 3000; is_surge = true };
  has_news = true;
  sector_momentum = none;
}

abbrev pub confirmed : MtfAnalysis
confirmed = record {
  weekly_trend_confirmed = true;
  daily_resistance_cleared = true;
  structure_4h_bullish = true;
  pullback_15m_valid = true;
  mtf_pass = true;
}

abbrev pub quoted : TapeMetrics Decimal
quoted = record default_tape {
  price = cents 1000;
  bid = cents 1000;
  ask = cents 1002;
  bid_size = 400;
  ask_size = 400;
  spread_cents = cents 2;
}

abbrev pub ready_state : SymbolState Decimal
ready_state = record new_symbol_state {
  tier = a;
  daily_context = some in_play;
  mtf_analysis = some confirmed;
  tape = quoted;
  last_trade_price = cents 1000;
  cold_start_state = full_active;
}

abbrev pub ready_engine : TapeEngine Decimal
ready_engine = record fresh_engine {
  symbol_states = (7, ready_state) ∷ [];
  last_sizing_shares = 10;
}

abbrev pub event_of : ℕ → EventKind Decimal → Event Decimal
event_of ts kind = record {
  ts_src = ts;
  ts_rx = ts;
  ts_proc = ts;
  seq = 1;
  symbol_id = 7;
  kind = kind;
}

abbrev pub trade : TickData Decimal
trade = record { price = cents 1000; size = 100; flags = 0 }

abbrev pub purchase : ℕ → FillData Decimal
purchase size = record { order_id = 1; price = cents 1000; size = size; side = bid; liquidity = 0 }
