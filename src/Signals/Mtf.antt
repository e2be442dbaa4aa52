-- ===== src/Signals/Mtf.antt =====
-- `MtfEngine` of rust/crates/mtf_engine/src/lib.rs.
use ibkr_bot.Base.{
  ℕ, nat_eq, Bool, true, false, not, ◌+◌, ◌-◌, ◌/◌, ◌<◌, ◌≤◌, ◌≡◌, ◌↔◌, ◌==◌, ◌&&◌, if◌then◌else◌,
  ltb, leb, arith,
}
use ibkr_bot.Base.Float.{Float}
use ibkr_bot.Core.Types.{SymbolId, MtfAnalysis}

pub record MtfParams : Type 0 where
  pub require_all : Bool
  pub stale_data_threshold_ms : ℕ

abbrev pub default_mtf : MtfParams
default_mtf = record { require_all = true; stale_data_threshold_ms = 3600000 }

pub record MtfEngine (F : Type 0) : Type 0 where
  pub params : MtfParams
  pub symbol_id : SymbolId
  pub weekly_ema : F
  pub daily_resistance : F
  pub structure_4h_bullish : Bool
  pub pullback_15m_valid : Bool
  pub last_weekly_ema_ts : ℕ
  pub last_daily_res_ts : ℕ
  pub last_4h_ts : ℕ
  pub last_15m_ts : ℕ
  pub current_price : F

unfoldable pub is_stale : MtfParams → ℕ → ℕ → Bool
is_stale p current_ts last_ts =
    if last_ts == 0 then true else ltb p.stale_data_threshold_ms ((current_ts - last_ts) / 1000)

abbrev pub point : Bool → ℕ
point x = if x then 1 else 0

all_four :
    (x y z t : Bool)
    → ((point x + point y + point z + point t == 4) ≡ true)
      ↔ ((x ≡ true) × (y ≡ true) × (z ≡ true) × (t ≡ true))
all_four x y z t = ground arith

module _ {F : Type 0} where
  unfoldable pub update_price : MtfEngine F → F → MtfEngine F
  update_price e price = record e { current_price = price }

  unfoldable pub update_4h_structure : MtfEngine F → Bool → ℕ → MtfEngine F
  update_4h_structure e is_bullish ts_src = record e {
    structure_4h_bullish = is_bullish;
    last_4h_ts = ts_src;
  }

  unfoldable pub update_15m_pullback : MtfEngine F → Bool → ℕ → MtfEngine F
  update_15m_pullback e is_valid ts_src = record e {
    pullback_15m_valid = is_valid;
    last_15m_ts = ts_src;
  }

module _ {F : Type 0} ⦃f : Float F⦄ where
  abbrev pub new_mtf_engine : SymbolId → MtfParams → MtfEngine F
  new_mtf_engine symbol_id params = record {
    params = params;
    symbol_id = symbol_id;
    weekly_ema = f.lit 0 0;
    daily_resistance = f.max_value;
    structure_4h_bullish = false;
    pullback_15m_valid = false;
    last_weekly_ema_ts = 0;
    last_daily_res_ts = 0;
    last_4h_ts = 0;
    last_15m_ts = 0;
    current_price = f.lit 0 0;
  }

  unfoldable pub update_weekly_ema : MtfEngine F → F → ℕ → MtfEngine F
  update_weekly_ema e ema ts_src =
      if f.lt (f.lit 0 0) ema then record e { weekly_ema = ema; last_weekly_ema_ts = ts_src } else e

  unfoldable pub update_daily_resistance : MtfEngine F → F → ℕ → MtfEngine F
  update_daily_resistance e resistance ts_src =
      if f.lt (f.lit 0 0) resistance
      then record e { daily_resistance = resistance; last_daily_res_ts = ts_src }
      else e

  unfoldable pub weekly_trend : MtfEngine F → ℕ → Bool
  unfolding is_stale
  weekly_trend e current_ts =
      if not (is_stale e.params current_ts e.last_weekly_ema_ts) && f.lt (f.lit 0 0) e.weekly_ema
      then f.lt e.weekly_ema e.current_price
      else false

  unfoldable pub resistance_cleared : MtfEngine F → ℕ → Bool
  unfolding is_stale
  resistance_cleared e current_ts =
      if not (is_stale e.params current_ts e.last_daily_res_ts)
        && f.lt (f.lit 0 0) e.daily_resistance
        && f.lt e.daily_resistance f.max_value
      then f.lt e.daily_resistance e.current_price
      else false

  unfoldable pub bullish_4h : MtfEngine F → ℕ → Bool
  unfolding is_stale
  bullish_4h e current_ts =
      if not (is_stale e.params current_ts e.last_4h_ts) then e.structure_4h_bullish else false

  unfoldable pub valid_15m : MtfEngine F → ℕ → Bool
  unfolding is_stale
  valid_15m e current_ts =
      if not (is_stale e.params current_ts e.last_15m_ts) then e.pullback_15m_valid else false

  unfoldable pub evaluate : MtfEngine F → ℕ → MtfAnalysis
  unfolding weekly_trend resistance_cleared bullish_4h valid_15m
  evaluate e current_ts =
      let weekly = weekly_trend e current_ts in
      let daily = resistance_cleared e current_ts in
      let bullish = bullish_4h e current_ts in
      let valid = valid_15m e current_ts in
      let score = point weekly + point daily + point bullish + point valid in
      record {
        weekly_trend_confirmed = weekly;
        daily_resistance_cleared = daily;
        structure_4h_bullish = bullish;
        pullback_15m_valid = valid;
        mtf_pass = if e.params.require_all then score == 4 else leb 3 score;
      }

  abbrev pub IsFresh : MtfEngine F → ℕ → ℕ → Type 0
  IsFresh e now last = (0 < last) × ((now - last) / 1000 ≤ e.params.stale_data_threshold_ms)

  weekly_trend_iff :
      (e : MtfEngine F) (now : ℕ)
      → (weekly_trend e now ≡ true) ↔ (
          IsFresh e now e.last_weekly_ema_ts
          × (f.lt (f.lit 0 0) e.weekly_ema ≡ true)
          × (f.lt e.weekly_ema e.current_price ≡ true))
  unfolding weekly_trend is_stale
  weekly_trend_iff e now = ground arith

  resistance_cleared_iff :
      (e : MtfEngine F) (now : ℕ)
      → (resistance_cleared e now ≡ true) ↔ (
          IsFresh e now e.last_daily_res_ts
          × (f.lt (f.lit 0 0) e.daily_resistance ≡ true)
          × (f.lt e.daily_resistance f.max_value ≡ true)
          × (f.lt e.daily_resistance e.current_price ≡ true))
  unfolding resistance_cleared is_stale
  resistance_cleared_iff e now = ground arith

  bullish_4h_iff :
      (e : MtfEngine F) (now : ℕ)
      → (bullish_4h e now ≡ true) ↔ (IsFresh e now e.last_4h_ts × (e.structure_4h_bullish ≡ true))
  unfolding bullish_4h is_stale
  bullish_4h_iff e now = ground arith

  valid_15m_iff :
      (e : MtfEngine F) (now : ℕ)
      → (valid_15m e now ≡ true) ↔ (IsFresh e now e.last_15m_ts × (e.pullback_15m_valid ≡ true))
  unfolding valid_15m is_stale
  valid_15m_iff e now = ground arith

  -- In strict mode a symbol passes exactly if all four inputs are fresh, the price is above the weekly
  -- average and above the resistance, which are set, and both structures hold.
  pub evaluate-eq-pass_iff :
      (e : MtfEngine F) (now : ℕ)
      → e.params.require_all ≡ true
      → ((evaluate e now).mtf_pass ≡ true) ↔ (
          (IsFresh e now e.last_weekly_ema_ts
            × (f.lt (f.lit 0 0) e.weekly_ema ≡ true)
            × (f.lt e.weekly_ema e.current_price ≡ true))
          × (IsFresh e now e.last_daily_res_ts
              × (f.lt (f.lit 0 0) e.daily_resistance ≡ true)
              × (f.lt e.daily_resistance f.max_value ≡ true)
              × (f.lt e.daily_resistance e.current_price ≡ true))
          × (IsFresh e now e.last_4h_ts × (e.structure_4h_bullish ≡ true))
          × (IsFresh e now e.last_15m_ts × (e.pullback_15m_valid ≡ true)))
  unfolding evaluate
  evaluate-eq-pass_iff e now strict =
      let four =
        all_four (weekly_trend e now) (resistance_cleared e now) (bullish_4h e now)
          (valid_15m e now) in
      let w = weekly_trend_iff e now in
      let d = resistance_cleared_iff e now in
      let h = bullish_4h_iff e now in
      let m = valid_15m_iff e now in
      rw strict (
        λ p. let q = four.0 p in (w.0 q.0, d.0 q.1, h.0 q.2, m.0 q.3),
        λ q. four.1 (w.1 q.0, d.1 q.1, h.1 q.2, m.1 q.3),
      )
