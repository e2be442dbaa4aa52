-- ===== src/Runtime/Slow.antt =====
-- The slow loop of rust/crates/app_runtime/src/lib.rs, on the watchlist and the engines of the
-- signals. It publishes the watchlist's snapshot after each event; the log messages are left out.
use ibkr_bot.Base.{
  ℕ, nat_eq, Bool, true, false, Option, some, none, List, [], ◌∷◌, ◌*◌, ◌%◌, ◌^◌, ◌==◌,
  if◌then◌else◌, ltb, leb,
}
use ibkr_bot.Base.Map.{Map, lookup, insert}
use ibkr_bot.Base.Result.{is_ok}
use ibkr_bot.Base.Float.{Float}
use ibkr_bot.Base.Int.{add_u32}
use ibkr_bot.Core.Types.{SymbolId, Tier, a, tier_eq, risk_off, regime_eq}
use ibkr_bot.Core.Events.{Event, EventKind, SnapshotData, tick, snapshot, heartbeat}
use ibkr_bot.Core.TimeBuffer
use ibkr_bot.Core.TimeBuffer.{TimeRingBuffer, min_max}
use ibkr_bot.Metrics.{MetricsCollector, new_metrics}
use ibkr_bot.Risk.State.{RiskState, set_monitor_only}
use ibkr_bot.Signals.Regime.{RegimeEngine, RegimeParams, new_regime_engine, update_calendar_risk}
use ibkr_bot.Signals.Context.{
  ContextEngine, ContextParams, new_context_engine, update_volume, update_news, update_price_window,
  compute_context,
}
use ibkr_bot.Signals.Mtf.{
  MtfEngine, MtfParams, new_mtf_engine, update_price, update_weekly_ema, update_daily_resistance,
  evaluate,
}
use ibkr_bot.Watchlist.Tiers.{
  Watchlist, new_list, get_tier, update_tick_count, update_symbol_context, touch, update_regime,
}
use ibkr_bot.Watchlist.Moves.{promote}
use ibkr_bot.Watchlist.Lifecycle.{process_lifecycle}

-- What the slow loop reads of the configuration.
pub record SlowConfig (F : Type 0) : Type 0 where
  pub regime : RegimeParams F
  pub context : ContextParams F
  pub mtf : MtfParams
  pub subscription_budget : ℕ
  pub demotion_cycles : ℕ
  pub eviction_cycles : ℕ
  pub min_quality_score : F
  pub min_volume : ℕ

pub record SlowLoop (F : Type 0) : Type 0 where
  pub watchlist : Watchlist F
  pub regime_eng : RegimeEngine F
  pub context_engines : Map SymbolId (ContextEngine F)
  pub mtf_engines : Map SymbolId (MtfEngine F)
  pub price_history : Map SymbolId (TimeRingBuffer F)
  pub subscription_count : ℕ
  pub metrics_collector : MetricsCollector

-- `entry(...).or_insert_with(...)`, read.
abbrev pub entry_or : {V : Type 0} → V → Option V → V
entry_or fresh (some v) = v
entry_or fresh none = fresh

-- Whether the symbol is of Tier A.
abbrev pub in_tier_a : Option Tier → Bool
in_tier_a (some t) = t == a
in_tier_a none = false

module _ {F : Type 0} ⦃f : Float F⦄ where
  abbrev pub new_slow_loop : SlowConfig F → SlowLoop F
  new_slow_loop c = record {
    watchlist = new_list;
    regime_eng = new_regime_engine c.regime;
    context_engines = [];
    mtf_engines = [];
    price_history = [];
    subscription_count = 0;
    metrics_collector = new_metrics;
  }

  -- The attempt to promote the symbol of a tick, within the budget of subscriptions.
  unfoldable pub count_tick : SlowConfig F → SlowLoop F → SymbolId → SlowLoop F
  unfolding get_tier update_tick_count promote
  count_tick c l symbol =
      let counted = update_tick_count l.watchlist symbol in
      let promoted = promote counted symbol (some new_metrics) in
      if in_tier_a (get_tier l.watchlist symbol)
      then l
      else if leb c.subscription_budget l.subscription_count
      then record l { watchlist = counted }
      else record l {
        watchlist = promoted.1;
        subscription_count =
            if is_ok promoted.0 then add_u32 l.subscription_count 1 else l.subscription_count;
      }

  abbrev pub price_or_zero : Option F → F
  price_or_zero (some x) = x
  price_or_zero none = f.lit 0 0

  -- The engines of a tick's symbol, and the context that they give the watchlist.
  unfoldable pub price_tick : SlowConfig F → SlowLoop F → SymbolId → ℕ → F → SlowLoop F
  unfolding TimeBuffer.new TimeBuffer.push min_max update_price_window compute_context update_price
      evaluate update_symbol_context
  price_tick c l symbol ts_src price =
      let window = c.context.churn_window_minutes * 60 * 1_000_000 % 2 ^ 64 in
      let history =
        TimeBuffer.push (entry_or (TimeBuffer.new 1000 window) (lookup symbol l.price_history))
          ts_src price in
      let range = min_max f.lt history in
      let ctx_eng =
        update_price_window
          (entry_or (new_context_engine symbol c.context) (lookup symbol l.context_engines))
          (price_or_zero range.1) (price_or_zero range.0) in
      let mtf_eng =
        update_price (entry_or (new_mtf_engine symbol c.mtf) (lookup symbol l.mtf_engines)) price in
      record l {
        context_engines = insert symbol ctx_eng l.context_engines;
        mtf_engines = insert symbol mtf_eng l.mtf_engines;
        price_history = insert symbol history l.price_history;
        watchlist =
            update_symbol_context l.watchlist symbol (compute_context ctx_eng)
              (evaluate mtf_eng ts_src);
      }

  unfoldable pub slow_heartbeat :
      Bool → SlowConfig F → SlowLoop F → RiskState F → SlowLoop F × RiskState F
  unfolding update_calendar_risk update_regime process_lifecycle set_monitor_only
  slow_heartbeat cal_active c l r =
      let regime_eng = update_calendar_risk l.regime_eng cal_active in
      let state = regime_eng.current_state in
      let cycled =
        process_lifecycle (update_regime l.watchlist state) c.demotion_cycles c.eviction_cycles
          c.min_quality_score c.min_volume l.metrics_collector in
      (
        record l { regime_eng = regime_eng; watchlist = cycled.0; metrics_collector = cycled.1 },
        if state == risk_off then set_monitor_only r true else r,
      )

  -- The calendar, and `as u64` of a float.
  module _ (is_active : ℕ → Bool) (as_u64 : F → ℕ) (c : SlowConfig F) where
    -- The volume and the news of a snapshot, for an engine that exists.
    unfoldable pub inform_context : SnapshotData F → ContextEngine F → ContextEngine F
    unfolding update_volume update_news
    inform_context snap ctx_eng =
        let surge = f.times (f.of_nat snap.avg_volume_20d) c.context.volume_multiplier_3x in
        update_news
          (update_volume ctx_eng snap.volume snap.avg_volume_20d (ltb (as_u64 surge) snap.volume))
          snap.has_news_today

    unfoldable pub slow_snapshot : SlowLoop F → SymbolId → ℕ → SnapshotData F → SlowLoop F
    unfolding touch inform_context update_weekly_ema update_daily_resistance evaluate
        compute_context update_symbol_context
    slow_snapshot l symbol ts_src snap =
        let mtf_old = entry_or (new_mtf_engine symbol c.mtf) (lookup symbol l.mtf_engines) in
        let mtf_eng =
          update_daily_resistance (update_weekly_ema mtf_old snap.weekly_ema ts_src)
            snap.daily_resistance ts_src in
        let ctx_eng : ContextEngine F = elim (lookup symbol l.context_engines) [
          | none ↦ new_context_engine symbol c.context
          | some known ↦ inform_context snap known
        ] in
        record l {
          mtf_engines = insert symbol mtf_eng l.mtf_engines;
          context_engines = insert symbol ctx_eng l.context_engines;
          watchlist =
              update_symbol_context (touch l.watchlist symbol ts_src) symbol
                (compute_context ctx_eng) (evaluate mtf_eng ts_src);
        }

    -- An event, by its kind; the shared risk state goes in and out.
    unfoldable pub slow_event :
        Event F → EventKind F → SlowLoop F → RiskState F → SlowLoop F × RiskState F
    unfolding count_tick price_tick slow_snapshot slow_heartbeat
    slow_event event (tick trade) l r =
        (price_tick c (count_tick c l event.symbol_id) event.symbol_id event.ts_src trade.price, r)
    slow_event event (snapshot snap) l r = (slow_snapshot l event.symbol_id event.ts_src snap, r)
    slow_event event heartbeat l r = slow_heartbeat (is_active event.ts_src) c l r
    slow_event event _ l r = (l, r)

-- An event, with the risk state as the loop finds it then.
pub record SlowInput (F : Type 0) : Type 0 where
  pub event : Event F
  pub risk_state : RiskState F

module _ {F : Type 0} ⦃f : Float F⦄ (is_active : ℕ → Bool) (as_u64 : F → ℕ) (c : SlowConfig F) where
  unfoldable pub run_slow : SlowLoop F → List (SlowInput F) → SlowLoop F
  unfolding slow_event
  run_slow l [] = l
  run_slow l (i ∷ is) =
      run_slow (slow_event is_active as_u64 c i.event i.event.kind l i.risk_state).0 is
