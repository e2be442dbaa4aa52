-- ===== src/Runtime/Idle.antt =====
-- The slow loop's watchlist without candidates: rust/crates/app_runtime/src/lib.rs and
-- rust/crates/watchlist_engine/src/lib.rs.
use ibkr_bot.Base.{
  ℕ, nat_eq, Bool, List, [], ◌∷◌, ◌≡◌, refl, sym, ap, ◌∙◌, inl, inr, Bool-cases, leb,
}
use ibkr_bot.Base.Map.{lookup, adjust, map_values, retain_map}
use ibkr_bot.Base.Float.{Float}
use ibkr_bot.Core.Types.{SymbolId, RegimeState}
use ibkr_bot.Core.Events.{Event, EventKind, SnapshotData, tick, snapshot, heartbeat}
use ibkr_bot.Metrics.{MetricsCollector}
use ibkr_bot.Risk.State.{RiskState}
use ibkr_bot.Signals.Regime.{update_calendar_risk}
use ibkr_bot.Watchlist.Tiers.{
  Watchlist, new_list, get_tier, change_data, update_tick_count, update_symbol_context, touch,
  update_regime,
}
use ibkr_bot.Watchlist.Moves.{promote, promote_from}
use ibkr_bot.Watchlist.Lifecycle.{process_lifecycle, age_all, select, demote_all, evict_all}
use ibkr_bot.Runtime.Slow.{
  SlowConfig, SlowLoop, new_slow_loop, count_tick, price_tick, slow_heartbeat, slow_snapshot,
  slow_event, SlowInput, run_slow,
}

-- A watchlist of no symbols.
abbrev pub bare : {F : Type 0} → RegimeState → Watchlist F
bare regime = record new_list { current_regime = regime }

module _ {F : Type 0} where
  IsBare-intro :
      (w : Watchlist F) (regime : RegimeState) → w ≡ bare regime → w ≡ bare w.current_regime
  IsBare-intro w regime h = h ∙ ap bare (sym (ap (λ v. v.current_regime) h))

module _ {F : Type 0} ⦃f : Float F⦄ where
  process_lifecycle-bare :
      (regime : RegimeState) (demotion eviction volume : ℕ) (quality : F) (m : MetricsCollector)
      → (process_lifecycle (bare regime) demotion eviction quality volume m).0 ≡ bare regime
  unfolding process_lifecycle age_all select demote_all evict_all map_values retain_map
  process_lifecycle-bare regime demotion eviction volume quality m = refl

  pub record IsIdle (l : SlowLoop F) : Type 0 where
    pub listed : l.watchlist ≡ bare l.watchlist.current_regime
    pub counted : l.subscription_count ≡ 0

  IsIdle-intro :
      (l : SlowLoop F) (regime : RegimeState)
      → l.watchlist ≡ bare regime
      → l.subscription_count ≡ 0
      → IsIdle l
  IsIdle-intro l regime h n = record { listed = IsBare-intro l.watchlist regime h; counted = n }

  -- The loop with a watchlist of no symbols.
  abbrev emptied : RegimeState → SlowLoop F → SlowLoop F
  emptied regime l = record l { watchlist = bare regime }

  -- What an operation makes of a loop that is idle, if it leaves the emptied one so.
  IsIdle-by :
      (op : SlowLoop F → SlowLoop F) (l : SlowLoop F) (regime : RegimeState)
      → ((op (emptied l.watchlist.current_regime l)).watchlist ≡ bare regime)
        × ((op (emptied l.watchlist.current_regime l)).subscription_count ≡ l.subscription_count)
      → IsIdle l
      → IsIdle (op l)
  IsIdle-by op l regime (listed, counted) h =
      let same : op l ≡ op (emptied l.watchlist.current_regime l) =
        ap (λ w. op (record l { watchlist = w })) h.listed in
      IsIdle-intro (op l) regime (ap (λ l'. l'.watchlist) same ∙ listed)
        (ap (λ l'. l'.subscription_count) same ∙ counted ∙ h.counted)

  count_tick-bare :
      (c : SlowConfig F) (l : SlowLoop F) (id : SymbolId) (regime : RegimeState)
      → let l' = count_tick c (emptied regime l) id in
        (l'.watchlist ≡ bare regime) × (l'.subscription_count ≡ l.subscription_count)
  unfolding count_tick update_tick_count change_data promote promote_from get_tier lookup adjust
  count_tick-bare c l id regime =
      elim (Bool-cases (leb c.subscription_budget l.subscription_count)) [
        | inl e ↦ rw e (refl, refl)
        | inr e ↦ rw e (refl, refl)
      ]

  price_tick-bare :
      (c : SlowConfig F) (l : SlowLoop F) (id : SymbolId) (ts : ℕ) (price : F)
      (regime : RegimeState)
      → let l' = price_tick c (emptied regime l) id ts price in
        (l'.watchlist ≡ bare regime) × (l'.subscription_count ≡ l.subscription_count)
  unfolding price_tick update_symbol_context change_data lookup adjust
  price_tick-bare c l id ts price regime = (refl, refl)

  slow_heartbeat-bare :
      (active : Bool) (c : SlowConfig F) (l : SlowLoop F) (r : RiskState F) (regime : RegimeState)
      → let l' = (slow_heartbeat active c (emptied regime l) r).0 in
        (l'.watchlist ≡ bare (update_calendar_risk l.regime_eng active).current_state)
        × (l'.subscription_count ≡ l.subscription_count)
  unfolding slow_heartbeat update_regime
  slow_heartbeat-bare active c l r regime = (
    process_lifecycle-bare (update_calendar_risk l.regime_eng active).current_state
        c.demotion_cycles c.eviction_cycles c.min_volume c.min_quality_score l.metrics_collector,
    refl,
  )

  module _ (is_active : ℕ → Bool) (as_u64 : F → ℕ) (c : SlowConfig F) where
    slow_snapshot-bare :
        (l : SlowLoop F) (id : SymbolId) (ts : ℕ) (snap : SnapshotData F) (regime : RegimeState)
        → let l' = slow_snapshot is_active as_u64 c (emptied regime l) id ts snap in
          (l'.watchlist ≡ bare regime) × (l'.subscription_count ≡ l.subscription_count)
    unfolding slow_snapshot update_symbol_context touch change_data lookup adjust
    slow_snapshot-bare l id ts snap regime = (refl, refl)

    slow_event-IsIdle :
        (event : Event F) (kind : EventKind F) (l : SlowLoop F) (r : RiskState F)
        → IsIdle l
        → IsIdle (slow_event is_active as_u64 c event kind l r).0
    unfolding slow_event
    slow_event-IsIdle event (tick trade) l r h =
        let id = event.symbol_id in
        IsIdle-by (λ l'. price_tick c l' id event.ts_src trade.price) (count_tick c l id) _
          (price_tick-bare c (count_tick c l id) id event.ts_src trade.price _)
          (IsIdle-by (λ l'. count_tick c l' id) l l.watchlist.current_regime
            (count_tick-bare c l id l.watchlist.current_regime) h)
    slow_event-IsIdle event (snapshot snap) l r h =
        IsIdle-by (λ l'. slow_snapshot is_active as_u64 c l' event.symbol_id event.ts_src snap) l
          l.watchlist.current_regime
          (slow_snapshot-bare l event.symbol_id event.ts_src snap l.watchlist.current_regime) h
    slow_event-IsIdle event heartbeat l r h =
        IsIdle-by (λ l'. (slow_heartbeat (is_active event.ts_src) c l' r).0) l _
          (slow_heartbeat-bare (is_active event.ts_src) c l r l.watchlist.current_regime) h
    slow_event-IsIdle event _ l r h = h

    run_slow-IsIdle :
        (l : SlowLoop F) (is : List (SlowInput F))
        → IsIdle l
        → IsIdle (run_slow is_active as_u64 c l is)
    unfolding run_slow
    run_slow-IsIdle l [] h = h
    run_slow-IsIdle l (i ∷ is) h =
        run_slow-IsIdle (slow_event is_active as_u64 c i.event i.event.kind l i.risk_state).0 is
          (slow_event-IsIdle i.event i.event.kind l i.risk_state h)

    -- From its start on, whatever it meets, the slow loop's watchlist has no symbol in any tier, and
    -- the loop counts no subscription.
    pub slow_loop-never_promotes :
        (is : List (SlowInput F)) → IsIdle (run_slow is_active as_u64 c (new_slow_loop c) is)
    slow_loop-never_promotes is =
        run_slow-IsIdle (new_slow_loop c) is (record { listed = refl; counted = refl })
