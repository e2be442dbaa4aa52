-- ===== src/Tape/Steps.antt =====
-- What every call does to the states of the symbols: rust/crates/tape_engine/src/lib.rs.
use ibkr_bot.Base.{
  ℕ, nat_eq, Bool, false, some, List, All, [], ◌∷◌, ◌==◌, ◌≡◌, refl, inl, inr, Bool-cases,
  Option-cases, All-imp,
}
use ibkr_bot.Base.Map.{
  Map, lookup, insert, map_values, Entries, Entries-lookup, Entries-insert, Entries-map_values,
}
use ibkr_bot.Base.Result.{ok, err, ◌>>◌}
use ibkr_bot.Base.Float.{Float}
use ibkr_bot.Base.Int.{is_zero}
use ibkr_bot.Core.Types.{SymbolId, Tier, a, tier_eq, DailyContext, MtfAnalysis}
use ibkr_bot.Core.Events.{
  Event, EventKind, FillData, PositionData, SnapshotData, TickData, tick, snapshot, fill, reconnect,
  state_sync,
}
use ibkr_bot.Core.Accounting.{compute_unrealized_pnl}
use ibkr_bot.Risk.Blocklist.{World}
use ibkr_bot.Risk.State.{check_entry}
use ibkr_bot.Risk.Guards.{Verdict, track_event, check_execution}
use ibkr_bot.Tape.State.{
  SymbolState, TapeEngine, new_symbol_state, state_or_default, with_state, cold_start_step,
  update_tier, update_daily_context, update_mtf_analysis, update_cold_start, update_regime,
  set_daily_target_reached,
}
use ibkr_bot.Tape.Entry.{
  open_symbols, early_gates, late_gates, entry_quote, evaluate_entry_logic, evaluate_gates,
}
use ibkr_bot.Tape.Events.{
  tick_state, apply_tick, carry_unrealized, fill_state, process_tick, process_fill, apply_snapshot,
  reset_cold, flatten, take_positions, handle, on_event,
}
use ibkr_bot.Tape.History.{
  Call, events, tiers, contexts, analyses, regimes, cold_starts, targets, shares, sizes, step, run,
}

module _ {F : Type 0} ⦃f : Float F⦄ where
  staged-symbol_states :
      (m k : Verdict) (x y : TapeEngine F)
      → y.symbol_states ≡ x.symbol_states
      → (let done : Verdict × TapeEngine F = elim m [
        | err reason ↦ (err reason, x)
        | ok _ ↦ (k, y)
      ] in
          done.1).symbol_states
        ≡ x.symbol_states
  staged-symbol_states (err e) k x y same = refl
  staged-symbol_states (ok _) k x y same = same

  evaluate_gates-symbol_states :
      (w : World) (e : TapeEngine F) (state : SymbolState F) (symbol : SymbolId) (ts_src today : ℕ)
      → (evaluate_gates w e state symbol ts_src today).1.symbol_states ≡ e.symbol_states
  unfolding evaluate_gates
  evaluate_gates-symbol_states w e state symbol ts_src today =
      let held = open_symbols 2 e.symbol_states in
      let entry = check_entry w e.risk_state symbol held today in
      let entered = record e { risk_state = entry.1 } in
      let guarded = check_execution e.guard_evaluator symbol ts_src (entry_quote state ts_src) in
      let checked = record entered { guard_evaluator = guarded.1 } in
      staged-symbol_states (entry.0 >> early_gates entered state)
        (guarded.0 >> late_gates checked state symbol held) entered checked refl

  pub evaluate_entry_logic-symbol_states :
      (w : World) (e : TapeEngine F) (symbol : SymbolId) (ts_src today : ℕ)
      → (evaluate_entry_logic w e symbol ts_src today).1.symbol_states ≡ e.symbol_states
  unfolding evaluate_entry_logic
  evaluate_entry_logic-symbol_states w e symbol ts_src today =
      elim (Bool-cases e.risk_state.monitor_only) [
        | inl t ↦ simp t
        | inr t ↦ elim (Option-cases (lookup symbol e.symbol_states)) [
          | inl u ↦ simp (t, u)
          | inr (state, u) ↦ elim (Bool-cases (state.tier == a)) [
            | inl v ↦ simp (t, u, v, evaluate_gates-symbol_states)
            | inr v ↦ simp (t, u, v)
          ]
        ]
      ]

  -- A predicate that a fresh state has and that every change of a state by an event keeps.
  pub record Closed (P : SymbolState F → Type 0) : Type 0 where
    pub fresh : P new_symbol_state
    pub traded :
        (e : TapeEngine F) (s : SymbolState F) (ts : ℕ) (price : F)
        → P s
        → P (tick_state e s ts price)
    pub marked :
        (s : SymbolState F) (pnl : F)
        → is_zero s.position ≡ false
        → P s
        → P (record s { current_unrealized_pnl = pnl })
    pub reported :
        (s : SymbolState F) (report : FillData F) (price : F)
        → P s
        → let s' = fill_state s report in
          P (record s' {
            current_unrealized_pnl = compute_unrealized_pnl s'.position s'.avg_cost price;
          })
    pub quoted : (s : SymbolState F) (snap : SnapshotData F) → P s → P (apply_snapshot snap s)
    pub reset : (s : SymbolState F) → P s → P (reset_cold s)
    pub flattened : (s : SymbolState F) → P s → P (flatten s)
    pub placed :
        (s : SymbolState F) (p : PositionData F)
        → P s
        → s.current_unrealized_pnl ≡ f.lit 0 0
        → P (record s { position = p.qty; avg_cost = p.avg_cost })

  state_or_default-Holds :
      (Q : SymbolState F → Type 0) (states : Map SymbolId (SymbolState F)) (symbol : SymbolId)
      → Q new_symbol_state
      → Entries (λ _ s. Q s) states
      → Q (state_or_default states symbol)
  unfolding state_or_default
  state_or_default-Holds Q states symbol fresh all = elim (Option-cases (lookup symbol states)) [
    | inl u ↦ rw (u, state_or_default) fresh
    | inr (s, u) ↦ rw (u, state_or_default) (Entries-lookup (λ _ s. Q s) symbol s states all u)
  ]

  module _ (P : SymbolState F → Type 0) (closed : Closed P) where
    abbrev pub Everywhere : TapeEngine F → Type 0
    Everywhere e = Entries (λ _ s. P s) e.symbol_states

    -- `P`, and no unrealised profit.
    abbrev Marked : SymbolState F → Type 0
    Marked s = P s × (s.current_unrealized_pnl ≡ f.lit 0 0)

    pub state_or_default-P :
        (e : TapeEngine F) (symbol : SymbolId)
        → Everywhere e
        → P (state_or_default e.symbol_states symbol)
    state_or_default-P e symbol = state_or_default-Holds P e.symbol_states symbol closed.fresh

    put-P :
        (e : TapeEngine F) (symbol : SymbolId) (s : SymbolState F)
        → P s
        → Everywhere e
        → Everywhere (record e { symbol_states = insert symbol s e.symbol_states })
    put-P e symbol s = Entries-insert (λ _ s. P s) symbol s e.symbol_states

    pub apply_tick-P :
        (e : TapeEngine F) (symbol : SymbolId) (ts : ℕ) (trade : TickData F)
        → Everywhere e
        → Everywhere (apply_tick e symbol ts trade)
    unfolding apply_tick carry_unrealized
    apply_tick-P e symbol ts trade all =
        let before = state_or_default e.symbol_states symbol in
        let s = tick_state e before ts trade.price in
        let p : P s = closed.traded e before ts trade.price (state_or_default-P e symbol all) in
        elim (Bool-cases (is_zero s.position)) [
          | inl t ↦ rw t (put-P e symbol s p all)
          | inr t ↦ rw t (put-P e symbol _ (closed.marked s _ t p) all)
        ]

    take_positions-Marked :
        (ps : List (PositionData F)) (states : Map SymbolId (SymbolState F))
        → Entries (λ _ s. Marked s) states
        → Entries (λ _ s. Marked s) (take_positions ps states)
    unfolding take_positions
    take_positions-Marked [] states all = all
    take_positions-Marked (p ∷ ps) states all =
        let s = state_or_default states p.symbol_id in
        let (holds, zero) =
          state_or_default-Holds Marked states p.symbol_id (closed.fresh, refl) all in
        take_positions-Marked ps _ (
          Entries-insert (λ _ s. Marked s) p.symbol_id _ states (closed.placed s p holds zero, zero)
            all)

    sync-P :
        (e : TapeEngine F) (ps : List (PositionData F))
        → Everywhere e
        → Entries (λ _ s. P s) (take_positions ps (map_values (λ _ s. flatten s) e.symbol_states))
    unfolding flatten
    sync-P e ps all =
        let flat =
          Entries-map_values (λ _ s. P s) (λ _ s. Marked s) (λ _ s. flatten s) e.symbol_states
            (λ _ s p. (closed.flattened s p, refl)) all in
        All-imp _ _ _ (λ _ q. q.0) (take_positions-Marked ps _ flat)

    process_fill-P :
        (e : TapeEngine F) (symbol : SymbolId) (report : FillData F)
        → Everywhere e
        → Everywhere (process_fill e symbol report).1
    unfolding process_fill carry_unrealized
    process_fill-P e symbol report all =
        put-P e symbol _
          (closed.reported (state_or_default e.symbol_states symbol) report _
            (state_or_default-P e symbol all))
          all

    handle-P :
        (w : World) (market_day : ℕ → ℕ) (e : TapeEngine F) (symbol : SymbolId) (ts_src : ℕ)
        (kind : EventKind F)
        → Everywhere e
        → Everywhere (handle w market_day e symbol ts_src kind).1
    unfolding handle process_tick with_state
    handle-P w market_day e symbol ts_src (tick trade) all =
        rw
          (evaluate_entry_logic-symbol_states w (apply_tick e symbol ts_src trade) symbol ts_src
            (market_day ts_src))
          (apply_tick-P e symbol ts_src trade all)
    handle-P w market_day e symbol ts_src (snapshot snap) all =
        put-P e symbol _ (closed.quoted _ snap (state_or_default-P e symbol all)) all
    handle-P w market_day e symbol ts_src (fill report) all = process_fill-P e symbol report all
    handle-P w market_day e symbol ts_src reconnect all =
        Entries-map_values (λ _ s. P s) (λ _ s. P s) (λ _ s. reset_cold s) e.symbol_states
          (λ _ s. closed.reset s) all
    handle-P w market_day e symbol ts_src (state_sync sync) all = sync-P e sync.positions all
    handle-P w market_day e symbol ts_src _ all = all

    tracked-P :
        (m : Verdict) (x : TapeEngine F) (k : Verdict × TapeEngine F)
        → Everywhere x
        → Everywhere k.1
        → Everywhere (
            let done : Verdict × TapeEngine F = elim m [
              | err reason ↦ (err reason, x)
              | ok _ ↦ k
            ] in
            done.1)
    tracked-P (err e) x k before after = before
    tracked-P (ok _) x k before after = after

    pub on_event-P :
        (w : World) (market_day : ℕ → ℕ) (e : TapeEngine F) (event : Event F)
        → Everywhere e
        → Everywhere (on_event w market_day e event).1
    unfolding on_event
    on_event-P w market_day e event all =
        let tracked = track_event e.guard_evaluator event.symbol_id event.ts_src in
        let counted = record e { guard_evaluator = tracked.1 } in
        tracked-P tracked.0 counted
          (handle w market_day counted event.symbol_id event.ts_src event.kind) all
          (handle-P w market_day counted event.symbol_id event.ts_src event.kind all)

    -- What the slow loop writes to a state keeps `P`, where the call is one that `allowed` admits.
    pub record Allows (allowed : Call F → Type 0) : Type 0 where
      pub tiered :
          (symbol : SymbolId) (tier : Tier) (s : SymbolState F)
          → allowed (tiers symbol tier)
          → P s
          → P (record s { tier = tier })
      pub informed :
          (ctx : DailyContext F) (s : SymbolState F)
          → allowed (contexts ctx)
          → P s
          → P (record s { daily_context = some ctx })
      pub analysed :
          (symbol : SymbolId) (analysis : MtfAnalysis) (s : SymbolState F)
          → allowed (analyses symbol analysis)
          → P s
          → P (record s { mtf_analysis = some analysis })
      pub warmed :
          (symbol : SymbolId) (is_surge : Bool) (s : SymbolState F)
          → allowed (cold_starts symbol is_surge)
          → P s
          → P (cold_start_step is_surge s)

    module _ (market_day : ℕ → ℕ) (allowed : Call F → Type 0) (laws : Allows allowed) where
      step-P :
          (e : TapeEngine F) (call : Call F)
          → allowed call
          → Everywhere e
          → Everywhere (step market_day e call)
      unfolding step update_tier update_daily_context update_mtf_analysis with_state
          update_cold_start update_regime set_daily_target_reached
      step-P e (events w event) _ all = on_event-P w market_day e event all
      step-P e (tiers symbol tier) h all =
          put-P e symbol _ (laws.tiered symbol tier _ h (state_or_default-P e symbol all)) all
      step-P e (contexts ctx) h all =
          put-P e ctx.symbol_id _ (laws.informed ctx _ h (state_or_default-P e ctx.symbol_id all))
            all
      step-P e (analyses symbol analysis) h all =
          put-P e symbol _ (laws.analysed symbol analysis _ h (state_or_default-P e symbol all)) all
      step-P e (regimes regime) _ all = all
      step-P e (cold_starts symbol is_surge) h all =
          put-P e symbol _ (laws.warmed symbol is_surge _ h (state_or_default-P e symbol all)) all
      step-P e (targets reached) _ all = all
      step-P e (shares r) _ all = all
      step-P e (sizes n) _ all = all

      -- A predicate on the states survives every sequence of calls that are allowed.
      pub run-P :
          (e : TapeEngine F) (calls : List (Call F))
          → All allowed calls
          → Everywhere e
          → Everywhere (run market_day e calls)
      unfolding run
      run-P e [] _ all = all
      run-P e (call ∷ calls) (h, hs) all =
          run-P (step market_day e call) calls hs (step-P e call h all)
