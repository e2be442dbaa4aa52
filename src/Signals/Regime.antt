-- ===== src/Signals/Regime.antt =====
-- `RegimeEngine` of rust/crates/regime_engine/src/lib.rs.
use ibkr_bot.Base.{
  Bool, true, false, not, List, [], ◌∷◌, ◌==◌, ◌||◌, ◌≡◌, ◌↔◌, ◌⊎◌, refl, if◌then◌else◌, arith,
}
use ibkr_bot.Base.Float.{Float}
use ibkr_bot.Core.Types.{DataQuality, RegimeState, normal, caution, risk_off, quality_eq}

pub record RegimeParams (F : Type 0) : Type 0 where
  pub atr_normal_max : F
  pub atr_caution_max : F
  pub breadth_normal_min : F
  pub breadth_caution_min : F
  pub widening_caution_pct : F
  pub widening_riskoff_pct : F

abbrev pub default_regime : {F : Type 0} ⦃f : Float F⦄ → RegimeParams F
default_regime ⦃f⦄ = record {
  atr_normal_max = f.lit 18 4;
  atr_caution_max = f.lit 28 4;
  breadth_normal_min = f.lit 45 2;
  breadth_caution_min = f.lit 35 2;
  widening_caution_pct = f.lit 25 2;
  widening_riskoff_pct = f.lit 50 2;
}

pub record RegimeEngine (F : Type 0) : Type 0 where
  pub params : RegimeParams F
  pub spy_atr_1m : F
  pub market_breadth : F
  pub spy_spread_baseline : F
  pub avg_spread_current : F
  pub is_calendar_risk : Bool
  pub data_quality : DataQuality
  pub current_state : RegimeState

-- The updates, by what they bring.
pub data Update (F : Type 0) : Type 0 where
  spread_baseline : F → Update F
  current_spread : F → Update F
  atr : F → Update F
  breadth : F → Update F
  calendar_risk : Bool → Update F
  quality : DataQuality → Update F

module _ {F : Type 0} ⦃f : Float F⦄ where
  abbrev pub new_regime_engine : RegimeParams F → RegimeEngine F
  new_regime_engine params = record {
    params = params;
    spy_atr_1m = f.lit 0 0;
    market_breadth = f.lit 45 2;
    spy_spread_baseline = f.lit 0 0;
    avg_spread_current = f.lit 0 0;
    is_calendar_risk = false;
    data_quality = DataQuality.ok;
    current_state = normal;
  }

  unfoldable pub widening : RegimeEngine F → F
  widening e =
      if f.lt (f.lit 0 0) e.spy_spread_baseline
      then f.over (f.minus e.avg_spread_current e.spy_spread_baseline) e.spy_spread_baseline
      else f.lit 0 0

  unfoldable pub calculate_state : RegimeEngine F → RegimeState
  unfolding widening
  calculate_state e =
      if not (e.data_quality == DataQuality.ok)
      then risk_off
      else if f.le e.params.atr_caution_max e.spy_atr_1m
          || f.le e.market_breadth e.params.breadth_caution_min
          || f.le e.params.widening_riskoff_pct (widening e)
      then risk_off
      else if e.is_calendar_risk
      then caution
      else if f.lt e.params.atr_normal_max e.spy_atr_1m
          || f.lt e.market_breadth e.params.breadth_normal_min
          || f.le e.params.widening_caution_pct (widening e)
      then caution
      else normal

  unfoldable pub recalc : RegimeEngine F → RegimeEngine F
  unfolding calculate_state
  recalc e = record e { current_state = calculate_state e }

  unfoldable pub set_spread_baseline : RegimeEngine F → F → RegimeEngine F
  unfolding recalc
  set_spread_baseline e baseline = recalc (record e { spy_spread_baseline = baseline })

  unfoldable pub update_current_spread : RegimeEngine F → F → RegimeEngine F
  unfolding recalc
  update_current_spread e current = recalc (record e { avg_spread_current = current })

  unfoldable pub update_atr : RegimeEngine F → F → RegimeEngine F
  unfolding recalc
  update_atr e spy_atr = recalc (record e { spy_atr_1m = spy_atr })

  unfoldable pub update_breadth : RegimeEngine F → F → RegimeEngine F
  unfolding recalc
  update_breadth e market_breadth = recalc (record e { market_breadth = market_breadth })

  unfoldable pub update_calendar_risk : RegimeEngine F → Bool → RegimeEngine F
  unfolding recalc
  update_calendar_risk e is_risk = recalc (record e { is_calendar_risk = is_risk })

  unfoldable pub update_data_quality : RegimeEngine F → DataQuality → RegimeEngine F
  unfolding recalc
  update_data_quality e data_quality = recalc (record e { data_quality = data_quality })

  abbrev pub apply : RegimeEngine F → Update F → RegimeEngine F
  apply e (spread_baseline x) = set_spread_baseline e x
  apply e (current_spread x) = update_current_spread e x
  apply e (atr x) = update_atr e x
  apply e (breadth x) = update_breadth e x
  apply e (calendar_risk x) = update_calendar_risk e x
  apply e (quality x) = update_data_quality e x

  abbrev pub apply_all : RegimeEngine F → List (Update F) → RegimeEngine F
  apply_all e [] = e
  apply_all e (u ∷ us) = apply_all (apply e u) us

  apply-current :
      (e : RegimeEngine F) (u : Update F) → (apply e u).current_state ≡ calculate_state (apply e u)
  unfolding calculate_state recalc set_spread_baseline update_current_spread update_atr
      update_breadth update_calendar_risk update_data_quality
  apply-current e (spread_baseline x) = refl
  apply-current e (current_spread x) = refl
  apply-current e (atr x) = refl
  apply-current e (breadth x) = refl
  apply-current e (calendar_risk x) = refl
  apply-current e (quality x) = refl

  -- After one or more updates the state is that of the inputs as they stand: it has no memory.
  apply_all-current :
      (e : RegimeEngine F) (u : Update F) (us : List (Update F))
      → let after = apply_all e (u ∷ us) in after.current_state ≡ calculate_state after
  apply_all-current e u [] = apply-current e u
  apply_all-current e u (v ∷ us) = apply_all-current (apply e u) v us

  -- The regime is risk-off exactly if the data is not in order, or the range, the breadth or the spread
  -- is at its outer bound or past it, and normal exactly if the data is in order, there is no calendar
  -- risk, all three are short of their outer bounds, the range and the breadth are at their inner
  -- bounds or inside, and the spread is short of its inner bound. The comments of the configuration
  -- take the outer bounds of the range and the breadth for caution, and the specification the inner
  -- bound of the spread for normal.
  pub calculate_state_iff :
      (e : RegimeEngine F)
      → let p = e.params in
        ((calculate_state e ≡ risk_off) ↔ (
          ((e.data_quality == DataQuality.ok) ≡ false)
          ⊎ (f.le p.atr_caution_max e.spy_atr_1m ≡ true)
          ⊎ (f.le e.market_breadth p.breadth_caution_min ≡ true)
          ⊎ (f.le p.widening_riskoff_pct (widening e) ≡ true)))
        × ((calculate_state e ≡ normal) ↔ (
            ((e.data_quality == DataQuality.ok) ≡ true)
            × (e.is_calendar_risk ≡ false)
            × (f.le p.atr_caution_max e.spy_atr_1m ≡ false)
            × (f.le e.market_breadth p.breadth_caution_min ≡ false)
            × (f.le p.widening_riskoff_pct (widening e) ≡ false)
            × (f.lt p.atr_normal_max e.spy_atr_1m ≡ false)
            × (f.lt e.market_breadth p.breadth_normal_min ≡ false)
            × (f.le p.widening_caution_pct (widening e) ≡ false)))
  unfolding calculate_state
  calculate_state_iff e = ground arith
