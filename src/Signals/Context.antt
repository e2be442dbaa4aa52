-- ===== src/Signals/Context.antt =====
-- `ContextEngine` of rust/crates/context_engine/src/lib.rs.
use ibkr_bot.Base.{
  ℕ, nat_eq, Bool, true, false, Option, some, none, ◌≡◌, ◌↔◌, ◌⊎◌, ◌==◌, ◌&&◌, ◌||◌, if◌then◌else◌,
  arith,
}
use ibkr_bot.Base.Float.{Float}
use ibkr_bot.Core.Types.{
  SymbolId, ContextState, undetermined, play, no_play, SectorMomentum, DailyContext,
}

pub record ContextParams (F : Type 0) : Type 0 where
  pub volume_multiplier_2x : F
  pub volume_multiplier_3x : F
  pub sector_momentum_min_pct : F
  pub churn_max_move_pct : F
  pub churn_window_minutes : ℕ

abbrev pub default_context : {F : Type 0} ⦃f : Float F⦄ → ContextParams F
default_context ⦃f⦄ = record {
  volume_multiplier_2x = f.lit 2 0;
  volume_multiplier_3x = f.lit 3 0;
  sector_momentum_min_pct = f.lit 2 0;
  churn_max_move_pct = f.lit 1 2;
  churn_window_minutes = 10;
}

pub record ContextEngine (F : Type 0) : Type 0 where
  pub params : ContextParams F
  pub symbol_id : SymbolId
  pub current_volume : ℕ
  pub avg_20d_volume : ℕ
  pub has_news : Bool
  pub sector_momentum : Option (SectorMomentum F)
  pub is_volume_surge : Bool
  pub price_high_window : F
  pub price_low_window : F
  pub is_churning : Bool

module _ {F : Type 0} where
  unfoldable pub update_volume : ContextEngine F → ℕ → ℕ → Bool → ContextEngine F
  update_volume e current avg_20d is_surge = record e {
    current_volume = current;
    avg_20d_volume = avg_20d;
    is_volume_surge = is_surge;
  }

  unfoldable pub update_news : ContextEngine F → Bool → ContextEngine F
  update_news e news = record e { has_news = news }

  unfoldable pub update_sector_momentum : ContextEngine F → SectorMomentum F → ContextEngine F
  update_sector_momentum e momentum = record e { sector_momentum = some momentum }

module _ {F : Type 0} ⦃f : Float F⦄ where
  abbrev pub new_context_engine : SymbolId → ContextParams F → ContextEngine F
  new_context_engine symbol_id params = record {
    params = params;
    symbol_id = symbol_id;
    current_volume = 0;
    avg_20d_volume = 0;
    has_news = false;
    sector_momentum = none;
    is_volume_surge = false;
    price_high_window = f.lit 0 0;
    price_low_window = f.lit 0 0;
    is_churning = false;
  }

  unfoldable pub update_price_window : ContextEngine F → F → F → ContextEngine F
  update_price_window e window_high window_low =
      let range_pct = f.over (f.minus window_high window_low) window_high in
      record e {
        price_high_window = window_high;
        price_low_window = window_low;
        is_churning =
            if f.lt (f.lit 0 0) window_high
            then f.lt range_pct e.params.churn_max_move_pct
            else e.is_churning;
      }

  unfoldable pub has_sector : ContextParams F → Option (SectorMomentum F) → Bool
  has_sector p none = false
  has_sector p (some s) = s.is_favorable && f.le p.sector_momentum_min_pct (f.absolute s.change_pct)

  abbrev pub vol_ratio : ContextEngine F → F
  vol_ratio e = f.over (f.of_nat e.current_volume) (f.of_nat e.avg_20d_volume)

  unfoldable pub evaluate_state : ContextEngine F → ContextState
  unfolding has_sector
  evaluate_state e =
      if e.is_churning
      then no_play
      else if e.avg_20d_volume == 0
      then undetermined
      else if e.is_volume_surge && f.le e.params.volume_multiplier_3x (vol_ratio e)
      then play
      else if f.lt (vol_ratio e) e.params.volume_multiplier_2x
      then no_play
      else if e.has_news || has_sector e.params e.sector_momentum
      then play
      else undetermined

  unfoldable pub compute_context : ContextEngine F → DailyContext F
  unfolding evaluate_state
  compute_context e = record {
    symbol_id = e.symbol_id;
    state = evaluate_state e;
    volume_profile = record {
      current_volume = e.current_volume;
      avg_20d_volume = e.avg_20d_volume;
      is_surge = e.is_volume_surge;
    };
    has_news = e.has_news;
    sector_momentum = e.sector_momentum;
  }

  -- A symbol is in play exactly if its price does not churn, its average volume is known, and either
  -- the volume surges to the upper multiple, or it is not below the lower one and there is news or
  -- a sector that moves.
  pub compute_context-eq-play_iff :
      (e : ContextEngine F)
      → ((compute_context e).state ≡ play) ↔ (
          (e.is_churning ≡ false)
          × ((e.avg_20d_volume == 0) ≡ false)
          × (((e.is_volume_surge ≡ true)
                × (f.le e.params.volume_multiplier_3x (vol_ratio e) ≡ true))
              ⊎ ((f.lt (vol_ratio e) e.params.volume_multiplier_2x ≡ false)
                  × ((e.has_news ≡ true) ⊎ (has_sector e.params e.sector_momentum ≡ true)))))
  unfolding compute_context evaluate_state
  compute_context-eq-play_iff e = ground arith
