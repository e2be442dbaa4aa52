-- ===== src/Runtime/Orders.antt =====
-- The sizes and the orders of the fast loop of rust/crates/app_runtime/src/lib.rs, with the records
-- of rust/crates/core_types/src/config.rs that it reads.
use ibkr_bot.Base.{
  ℕ, nat_eq, String, Bool, Option, some, none, List, [], ◌∷◌, ◌-◌, ◌/◌, ◌==◌, ◌&&◌, if◌then◌else◌,
  leb,
}
use ibkr_bot.Base.Map.{Map, lookup}
use ibkr_bot.Base.Float.{Float}
use ibkr_bot.Base.Int.{abs, is_zero, is_positive}
use ibkr_bot.Core.Types.{SymbolId, Side, ask, bid, OrderRequest, OrderType, limit, market, ioc}
use ibkr_bot.Core.Events.{OmsCommand, new_order}
use ibkr_bot.Risk.Sizing.{SizingConfig, PricingModel, calculate_size}
use ibkr_bot.Risk.State.{available_cash}
use ibkr_bot.Tape.State.{SymbolState, TapeConfig, TapeEngine}
use ibkr_bot.Runtime.Keys.{idempotency_key_stack}

pub record RiskConfig (F : Type 0) : Type 0 where
  pub max_daily_loss_usd : F
  pub risk_per_trade_usd : F
  pub max_position_pct : F
  pub budget_cap_pct : F
  pub account_capital_usd : F

pub record PricingConfig (F : Type 0) : Type 0 where
  pub k_atr : F
  pub min_stop_pct : F
  pub min_stop_abs_usd : F
  pub anti_chase_runup_pct : F
  pub slippage_alpha : F
  pub slippage_beta : F
  pub sec_fee_rate : F
  pub taf_rate : F
  pub commission_per_share : F
  pub min_net_profit_usd : F

-- The part of `AppConfig` that the fast loop reads.
pub record FastConfig (F : Type 0) : Type 0 where
  pub risk : RiskConfig F
  pub pricing : PricingConfig F
  pub tape : TapeConfig F
  pub pre_after_enabled : Bool

abbrev pub at_least_one : ℕ → ℕ
at_least_one n = if n == 0 then 1 else n

module _ {F : Type 0} where
  abbrev pub sell_or_buy : SymbolId → Side → ℕ → OrderType → Option F → String → OrderRequest F
  sell_or_buy symbol side qty order_type price key = record {
    symbol_id = symbol;
    side = side;
    qty = qty;
    order_type = order_type;
    limit_price = price;
    stop_price = none;
    tif = ioc;
    idempotency_key = key;
    take_profit_price = none;
    stop_loss_price = none;
  }

  -- The orders that close every open position.
  unfoldable pub close_all : ℕ → Map SymbolId (SymbolState F) → List (OmsCommand F)
  unfolding idempotency_key_stack
  close_all ts_src [] = []
  close_all ts_src ((symbol, state) ∷ states) =
      let rest = close_all ts_src states in
      let side = if is_positive state.position then ask else bid in
      if is_zero state.position
      then rest
      else new_order (
          sell_or_buy symbol side (abs state.position) market none
            (idempotency_key_stack "CLOSE-ALL" symbol ts_src))
        ∷ rest

module _ {F : Type 0} ⦃f : Float F⦄ where
  abbrev pub sizing_config : FastConfig F → SizingConfig F
  sizing_config c = record {
    risk_per_trade_usd = c.risk.risk_per_trade_usd;
    min_stop_distance_cents = c.pricing.min_stop_abs_usd;
    max_position_pct_nav = c.risk.max_position_pct;
    liquidity_cap_pct = f.lit 1 3;
    budget_cap_usd = f.times c.risk.account_capital_usd c.risk.budget_cap_pct;
  }

  abbrev pub pricing_of : PricingConfig F → PricingModel F
  pricing_of p = record {
    commission_per_share = p.commission_per_share;
    sec_fee_rate = p.sec_fee_rate;
    taf_rate = p.taf_rate;
    slippage_alpha = p.slippage_alpha;
    slippage_beta = p.slippage_beta;
    min_net_profit_usd = p.min_net_profit_usd;
  }

  abbrev pub atr_of : Option (SymbolState F) → F → F
  atr_of (some s) otherwise = s.tape.atr_1m
  atr_of none otherwise = otherwise

  abbrev pub half_spread_of : Option (SymbolState F) → F
  half_spread_of (some s) = f.over s.tape.spread_cents (f.lit 100 0)
  half_spread_of none = f.lit 0 0

  -- The stop's distance, from what the tape engine knows of the symbol.
  unfoldable pub stop_distance : FastConfig F → Option (SymbolState F) → F → F
  stop_distance c known price =
      let state_atr = atr_of known (f.lit 0 0) in
      let spread_half = half_spread_of known in
      let stop_guards =
        f.greater (f.times (f.lit 2 0) (f.lit 1 2))
          (f.times (f.times (f.lit 25 2) spread_half) (f.lit 2 0)) in
      let stop_atr =
        if f.lt (f.lit 0 0) state_atr then f.times state_atr c.pricing.k_atr else f.lit 0 0 in
      let min_stop =
        f.greater (f.greater c.pricing.min_stop_abs_usd (f.times c.pricing.min_stop_pct price))
          (f.times (f.lit 8 1) state_atr) in
      f.greater (f.greater (f.greater stop_guards stop_atr) min_stop)
        (sizing_config c).min_stop_distance_cents

  abbrev pub known_volume : Option (SymbolState F) → ℕ
  known_volume (some s) = elim s.daily_context [
    | some ctx ↦ ctx.volume_profile.avg_20d_volume
    | none ↦ 0
  ]
  known_volume none = 0

  -- The size after the daily target, and after a tenth of the capital.
  unfoldable pub reduce_size : FastConfig F → TapeEngine F → ℕ → ℕ
  reduce_size c e qty =
      let gross = f.times c.risk.account_capital_usd (f.lit 10 2) in
      let halved = if e.daily_target_reached then at_least_one (qty / 2) else qty in
      if f.le gross e.global_realized_pnl && f.lt (f.lit 0 0) gross
      then at_least_one (halved / 4)
      else halved

  unfoldable pub entry_size : FastConfig F → TapeEngine F → SymbolId → F → ℕ → ℕ
  unfolding stop_distance available_cash calculate_size reduce_size
  entry_size c e symbol price today =
      let known = lookup symbol e.symbol_states in
      let capital = c.risk.account_capital_usd in
      reduce_size c e (
        calculate_size (sizing_config c) capital price (f.minus price (stop_distance c known price))
          (known_volume known) (available_cash e.risk_state today capital))

  unfoldable pub entry_order : FastConfig F → TapeEngine F → SymbolId → ℕ → F → ℕ → OrderRequest F
  unfolding stop_distance idempotency_key_stack
  entry_order c e symbol ts_src price qty =
      let dist = stop_distance c (lookup symbol e.symbol_states) price in
      record {
        symbol_id = symbol;
        side = bid;
        qty = qty;
        order_type = limit;
        limit_price = some price;
        stop_price = none;
        tif = ioc;
        idempotency_key = idempotency_key_stack "" symbol ts_src;
        take_profit_price = some (f.plus price (f.times (f.lit 2 0) dist));
        stop_loss_price = some (f.minus price dist);
      }

  -- The emergency exit after a halt of five minutes.
  unfoldable pub emergency_exit :
      Map SymbolId (SymbolState F) → SymbolId → ℕ → F → ℕ → List (OmsCommand F)
  unfolding idempotency_key_stack
  emergency_exit states symbol ts_src price halt_ts =
      let price_of = λ (atr : F).
        f.greater
          (f.greater (f.minus price (f.times (f.lit 25 2) atr))
            (f.minus price (f.times (f.lit 2 0) (f.lit 1 2))))
          (f.lit 1 2) in
      elim (lookup symbol states) [
        | none ↦ []
        | some s ↦
            if is_positive s.position && leb 300 ((ts_src - halt_ts) / 1_000_000)
            then new_order (
                sell_or_buy symbol ask (abs s.position) limit (some (price_of s.tape.atr_1m))
                  (idempotency_key_stack "EMERGENCY-EXIT" symbol ts_src))
              ∷ []
            else []
      ]
