-- ===== src/Tape/Events.antt =====
-- `on_event`, `process_tick` and `process_fill` of rust/crates/tape_engine/src/lib.rs.
-- `market_day_boundary` calls a library of dates: it is the parameter `market_day`.
use ibkr_bot.Base.{ℕ, nat_eq, List, [], ◌∷◌, ◌++◌, ◌-◌, ◌*◌, ltb, leb, if◌then◌else◌, length}
use ibkr_bot.Base.Map.{Map, map_values, insert}
use ibkr_bot.Base.Result.{ok, err}
use ibkr_bot.Base.Float.{Float}
use ibkr_bot.Base.Int.{pos, is_zero}
use ibkr_bot.Core.Types.{SymbolId, cold_start}
use ibkr_bot.Core.Events.{
  Event, EventKind, TickData, FillData, SnapshotData, PositionData, tick, snapshot, fill, reconnect,
  state_sync,
}
use ibkr_bot.Core.Accounting.{compute_realized_pnl, compute_unrealized_pnl}
use ibkr_bot.Risk.Blocklist.{World}
use ibkr_bot.Risk.State.{update_pnl}
use ibkr_bot.Risk.Guards.{Verdict, track_event}
use ibkr_bot.Tape.State.{
  SymbolState, TapeEngine, default_tape, state_or_default, with_state, ring_buffer_capacity,
  ring_buffer_window_secs,
}
use ibkr_bot.Tape.Scores.{calculate_scores}
use ibkr_bot.Tape.Ledger.{position_after, avg_cost_after, reduces}
use ibkr_bot.Tape.Entry.{evaluate_entry_logic}

module _ {F : Type 0} where
  -- The loop that pops the entries before `cutoff_ts`.
  unfoldable pub drop_before : ℕ → List (ℕ × F) → List (ℕ × F)
  drop_before cutoff_ts [] = []
  drop_before cutoff_ts ((old_ts, price) ∷ history) =
      if ltb old_ts cutoff_ts then drop_before cutoff_ts history else (old_ts, price) ∷ history

  abbrev pub pop_front : List (ℕ × F) → List (ℕ × F)
  pop_front [] = []
  pop_front (x ∷ history) = history

  unfoldable pub remember : ℕ → F → List (ℕ × F) → List (ℕ × F)
  unfolding drop_before
  remember ts_src price history =
      let kept = drop_before (ts_src - ring_buffer_window_secs * 1_000_000) history in
      let room = if leb ring_buffer_capacity (length kept) then pop_front kept else kept in
      room ++ ((ts_src, price) ∷ [])

module _ {F : Type 0} ⦃f : Float F⦄ where
  -- A new unrealised profit of one symbol, carried to the totals and to the risk state.
  unfoldable pub carry_unrealized : TapeEngine F → SymbolId → SymbolState F → F → TapeEngine F
  unfolding update_pnl
  carry_unrealized e symbol state new_unrealized =
      let total =
        f.plus e.global_unrealized_pnl (f.minus new_unrealized state.current_unrealized_pnl) in
      record e {
        symbol_states =
            insert symbol (record state { current_unrealized_pnl = new_unrealized })
              e.symbol_states;
        global_unrealized_pnl = total;
        risk_state = update_pnl e.risk_state (f.plus e.global_realized_pnl total);
      }

  -- A symbol's state after a trade at a price.
  unfoldable pub tick_state : TapeEngine F → SymbolState F → ℕ → F → SymbolState F
  unfolding calculate_scores remember
  tick_state e s ts_src price =
      let tape = record s.tape { price = price } in
      record s {
        tape = record tape { total_score = (calculate_scores e.config tape).total_score };
        last_trade_price = price;
        trade_history = remember ts_src price s.trade_history;
      }

  -- `process_tick`, up to the call of `evaluate_entry_logic`.
  unfoldable pub apply_tick : TapeEngine F → SymbolId → ℕ → TickData F → TapeEngine F
  unfolding state_or_default tick_state carry_unrealized
  apply_tick e symbol ts_src trade =
      let s = tick_state e (state_or_default e.symbol_states symbol) ts_src trade.price in
      if is_zero s.position
      then record e { symbol_states = insert symbol s e.symbol_states }
      else carry_unrealized e symbol s (compute_unrealized_pnl s.position s.avg_cost trade.price)

  unfoldable pub process_tick :
      World → TapeEngine F → SymbolId → ℕ → TickData F → ℕ → Verdict × TapeEngine F
  unfolding apply_tick evaluate_entry_logic
  process_tick w e symbol ts_src trade day_ordinal =
      evaluate_entry_logic w (apply_tick e symbol ts_src trade) symbol ts_src day_ordinal

  -- The position, its cost and the realised profit of a symbol after a fill.
  unfoldable pub fill_state : SymbolState F → FillData F → SymbolState F
  unfolding position_after avg_cost_after reduces compute_realized_pnl
  fill_state s report = record s {
    position = position_after s.position report;
    avg_cost = avg_cost_after s.position s.avg_cost report;
    realized_pnl =
        if reduces s.position report
        then f.plus s.realized_pnl (compute_realized_pnl s.position s.avg_cost report)
        else s.realized_pnl;
  }

  unfoldable pub process_fill : TapeEngine F → SymbolId → FillData F → Verdict × TapeEngine F
  unfolding state_or_default fill_state carry_unrealized
  process_fill e symbol report =
      let before = state_or_default e.symbol_states symbol in
      let s = fill_state before report in
      let realized =
        if reduces before.position report
        then f.plus e.global_realized_pnl
            (compute_realized_pnl before.position before.avg_cost report)
        else e.global_realized_pnl in
      let current_price = if f.lt (f.lit 0 0) s.tape.price then s.tape.price else report.price in
      (
        ok tt,
        carry_unrealized (record e { global_realized_pnl = realized }) symbol s
            (compute_unrealized_pnl s.position s.avg_cost current_price),
      )

  unfoldable pub apply_snapshot : SnapshotData F → SymbolState F → SymbolState F
  apply_snapshot snap s = record s {
    tape = record s.tape {
      bid = snap.bid_price;
      ask = snap.ask_price;
      bid_size = snap.bid_size;
      ask_size = snap.ask_size;
      spread_cents = f.minus snap.ask_price snap.bid_price;
    };
  }

  unfoldable pub reset_cold : SymbolState F → SymbolState F
  reset_cold s = record s { cold_start_state = cold_start; tape = default_tape }

  unfoldable pub flatten : SymbolState F → SymbolState F
  flatten s = record s {
    position = pos 0;
    avg_cost = f.lit 0 0;
    current_unrealized_pnl = f.lit 0 0;
  }

  unfoldable pub take_positions :
      List (PositionData F) → Map SymbolId (SymbolState F) → Map SymbolId (SymbolState F)
  unfolding state_or_default
  take_positions [] states = states
  take_positions (p ∷ ps) states = take_positions ps (
      insert p.symbol_id
        (record (state_or_default states p.symbol_id) { position = p.qty; avg_cost = p.avg_cost })
        states)

  -- The `match` of `on_event`, behind the guard.
  unfoldable pub handle :
      World → (ℕ → ℕ) → TapeEngine F → SymbolId → ℕ → EventKind F → Verdict × TapeEngine F
  unfolding process_tick process_fill with_state apply_snapshot reset_cold flatten take_positions
  handle w market_day e symbol ts_src (tick trade) =
      process_tick w e symbol ts_src trade (market_day ts_src)
  handle w market_day e symbol ts_src (snapshot snap) =
      (ok tt, with_state e symbol (apply_snapshot snap))
  handle w market_day e symbol ts_src (fill report) = process_fill e symbol report
  handle w market_day e symbol ts_src reconnect =
      (ok tt, record e { symbol_states = map_values (λ _ s. reset_cold s) e.symbol_states })
  handle w market_day e symbol ts_src (state_sync sync) = (
    ok tt,
    record e {
      symbol_states = take_positions sync.positions (map_values (λ _ s. flatten s) e.symbol_states);
      global_unrealized_pnl = f.lit 0 0;
    },
  )
  handle w market_day e symbol ts_src _ = (ok tt, e)

  unfoldable pub on_event : World → (ℕ → ℕ) → TapeEngine F → Event F → Verdict × TapeEngine F
  unfolding track_event handle
  on_event w market_day e event =
      let tracked = track_event e.guard_evaluator event.symbol_id event.ts_src in
      let counted = record e { guard_evaluator = tracked.1 } in
      elim tracked.0 [
        | err reason ↦ (err reason, counted)
        | ok _ ↦ handle w market_day counted event.symbol_id event.ts_src event.kind
      ]
