-- ===== src/Risk/Sizing.antt =====
-- `PositionSizer` and `PricingModel` of rust/crates/risk_engine/src/sizing.rs.
use ibkr_bot.Base.{ℕ, ◌||◌, ◌==◌, nat_eq, if◌then◌else◌}
use ibkr_bot.Base.Float.{Float}

pub record SizingConfig (F : Type 0) : Type 0 where
  pub risk_per_trade_usd : F
  pub min_stop_distance_cents : F
  pub max_position_pct_nav : F
  pub liquidity_cap_pct : F
  pub budget_cap_usd : F

abbrev pub default_sizing : {F : Type 0} ⦃f : Float F⦄ → SizingConfig F
default_sizing ⦃f⦄ = record {
  risk_per_trade_usd = f.lit 50 0;
  min_stop_distance_cents = f.lit 5 2;
  max_position_pct_nav = f.lit 10 2;
  liquidity_cap_pct = f.lit 1 2;
  budget_cap_usd = f.lit 5000 0;
}

pub record PricingModel (F : Type 0) : Type 0 where
  pub commission_per_share : F
  pub sec_fee_rate : F
  pub taf_rate : F
  pub slippage_alpha : F
  pub slippage_beta : F
  pub min_net_profit_usd : F

module _ {F : Type 0} ⦃f : Float F⦄ where
  -- The five bounds on a position, in shares, and the least of them.
  unfoldable pub risk_shares : SizingConfig F → F → F → F
  risk_shares c entry_price stop_price =
      f.over c.risk_per_trade_usd
        (f.greater (f.minus entry_price stop_price) c.min_stop_distance_cents)

  unfoldable pub budget_shares : SizingConfig F → F → F → F → F
  budget_shares c account_balance entry_price available_cash =
      let budget_cap_shares = f.over c.budget_cap_usd entry_price in
      let nav_cap_shares = f.over (f.times account_balance c.max_position_pct_nav) entry_price in
      let cash_cap_shares = f.over available_cash entry_price in
      f.lesser (f.lesser budget_cap_shares nav_cap_shares) cash_cap_shares

  unfoldable pub calculate_size : SizingConfig F → F → F → F → ℕ → F → ℕ
  unfolding risk_shares budget_shares
  calculate_size c account_balance entry_price stop_price daily_volume available_cash =
      let liquidity_shares = f.times (f.of_nat daily_volume) c.liquidity_cap_pct in
      let final_shares =
        f.lesser
          (f.lesser (risk_shares c entry_price stop_price)
            (budget_shares c account_balance entry_price available_cash))
          liquidity_shares in
      if f.le entry_price (f.lit 0 0) || f.le stop_price (f.lit 0 0) || f.le entry_price stop_price
      then 0
      else f.as_u32 (f.floor final_shares)

  unfoldable pub total_fees : PricingModel F → ℕ → F → F → F
  total_fees p shares entry_price exit_price =
      let shares_f = f.of_nat shares in
      let commission = f.times (f.times p.commission_per_share shares_f) (f.lit 2 0) in
      let sec_fee = f.times p.sec_fee_rate (f.times exit_price shares_f) in
      let taf = f.times p.taf_rate shares_f in f.plus (f.plus commission sec_fee) taf

  unfoldable pub expected_slippage : PricingModel F → ℕ → F → F → F → F → F
  expected_slippage p shares price spread_cents vol_1m avg_depth_top3 =
      let shares_f = f.of_nat shares in
      let half_spread = f.over spread_cents (f.lit 200 0) in
      let volatility_slip = f.times (f.times p.slippage_alpha vol_1m) price in
      let impact_slip =
        if f.lt (f.lit 0 0) avg_depth_top3
        then f.times p.slippage_beta (f.over shares_f avg_depth_top3)
        else f.times p.slippage_beta (f.lit 1 2) in
      f.times (f.greater (f.greater half_spread volatility_slip) impact_slip) shares_f

  unfoldable pub gross : F → ℕ → F
  gross entry_price shares =
      f.lesser (f.times (f.times entry_price (f.lit 10 2)) (f.of_nat shares)) (f.lit 50 0)

  unfoldable pub expected_net : PricingModel F → ℕ → F → F → F → F → F
  unfolding total_fees expected_slippage gross
  expected_net p shares entry_price spread_cents vol_1m avg_depth_top3 =
      let exit_price_est = f.times entry_price (f.lit 110 2) in
      let fees = total_fees p shares entry_price exit_price_est in
      let slippage = expected_slippage p shares entry_price spread_cents vol_1m avg_depth_top3 in
      if shares == 0
      then f.negate (f.lit 1 0)
      else f.minus (f.minus (gross entry_price shares) fees) slippage
