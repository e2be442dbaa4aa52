-- ===== src/Signals/Tests.antt =====
-- The theorems on the signals at concrete inputs: rust/crates/regime_engine/src/lib.rs and
-- rust/crates/mtf_engine/src/lib.rs.
use ibkr_bot.Base.{nat_eq, true, false, [], ◌∷◌, ◌==◌, ◌≡◌, ◌↔◌, ◌⊎◌, refl}
use ibkr_bot.Base.Float.{Decimal, decimal_float}
use ibkr_bot.Core.Types.{DataQuality, degraded, normal, risk_off, quality_eq, play}
use ibkr_bot.Signals.Regime.{
  RegimeEngine, quality, new_regime_engine, default_regime, calculate_state, apply_all, widening,
  calculate_state_iff, update_data_quality, recalc,
}
use ibkr_bot.Signals.Mtf.{
  MtfEngine, new_mtf_engine, default_mtf, evaluate, IsFresh, evaluate-eq-pass_iff,
}
use ibkr_bot.Signals.Context.{
  ContextEngine, new_context_engine, default_context, compute_context, vol_ratio, has_sector,
  compute_context-eq-play_iff,
}

abbrev regime : RegimeEngine Decimal
regime = new_regime_engine default_regime

test_degraded : (apply_all regime (quality degraded ∷ [])).current_state ≡ risk_off
unfolding update_data_quality recalc calculate_state
test_degraded = refl

calculate_state_iff_example :
    let p = regime.params in
    ((calculate_state regime ≡ risk_off) ↔ (
      ((regime.data_quality == DataQuality.ok) ≡ false)
      ⊎ (decimal_float.le p.atr_caution_max regime.spy_atr_1m ≡ true)
      ⊎ (decimal_float.le regime.market_breadth p.breadth_caution_min ≡ true)
      ⊎ (decimal_float.le p.widening_riskoff_pct (widening regime) ≡ true)))
    × ((calculate_state regime ≡ normal) ↔ (
        ((regime.data_quality == DataQuality.ok) ≡ true)
        × (regime.is_calendar_risk ≡ false)
        × (decimal_float.le p.atr_caution_max regime.spy_atr_1m ≡ false)
        × (decimal_float.le regime.market_breadth p.breadth_caution_min ≡ false)
        × (decimal_float.le p.widening_riskoff_pct (widening regime) ≡ false)
        × (decimal_float.lt p.atr_normal_max regime.spy_atr_1m ≡ false)
        × (decimal_float.lt regime.market_breadth p.breadth_normal_min ≡ false)
        × (decimal_float.le p.widening_caution_pct (widening regime) ≡ false)))
calculate_state_iff_example = calculate_state_iff regime

-- The inputs of the unit test: all four hold at time 2000.
abbrev mtf : MtfEngine Decimal
mtf = record (new_mtf_engine 1 default_mtf) {
  current_price = decimal_float.lit 10 0;
  weekly_ema = decimal_float.lit 9 0;
  last_weekly_ema_ts = 1000;
  daily_resistance = decimal_float.lit 95 1;
  last_daily_res_ts = 1000;
  structure_4h_bullish = true;
  last_4h_ts = 1000;
  pullback_15m_valid = true;
  last_15m_ts = 1000;
}

evaluate-eq-pass_iff_example : ((evaluate mtf 2000).mtf_pass ≡ true) ↔ (
    (IsFresh mtf 2000 mtf.last_weekly_ema_ts
      × (decimal_float.lt (decimal_float.lit 0 0) mtf.weekly_ema ≡ true)
      × (decimal_float.lt mtf.weekly_ema mtf.current_price ≡ true))
    × (IsFresh mtf 2000 mtf.last_daily_res_ts
        × (decimal_float.lt (decimal_float.lit 0 0) mtf.daily_resistance ≡ true)
        × (decimal_float.lt mtf.daily_resistance decimal_float.max_value ≡ true)
        × (decimal_float.lt mtf.daily_resistance mtf.current_price ≡ true))
    × (IsFresh mtf 2000 mtf.last_4h_ts × (mtf.structure_4h_bullish ≡ true))
    × (IsFresh mtf 2000 mtf.last_15m_ts × (mtf.pullback_15m_valid ≡ true)))
evaluate-eq-pass_iff_example = evaluate-eq-pass_iff mtf 2000 refl

abbrev context : ContextEngine Decimal
context = record (new_context_engine 1 default_context) {
  current_volume = 250;
  avg_20d_volume = 100;
  has_news = true;
}

compute_context-eq-play_iff_example : ((compute_context context).state ≡ play) ↔ (
    (context.is_churning ≡ false)
    × ((context.avg_20d_volume == 0) ≡ false)
    × (((context.is_volume_surge ≡ true)
          × (decimal_float.le context.params.volume_multiplier_3x (vol_ratio context) ≡ true))
        ⊎ ((decimal_float.lt (vol_ratio context) context.params.volume_multiplier_2x ≡ false)
            × ((context.has_news ≡ true)
                ⊎ (has_sector context.params context.sector_momentum ≡ true)))))
compute_context-eq-play_iff_example = compute_context-eq-play_iff context
