-- ===== src/Runtime/RiskTask.antt =====
-- The risk task of rust/crates/app_runtime/src/lib.rs: positions, settlement, day trades and partial
-- exits. Its outputs are the commands that it tries to send; the shared risk state goes in and out.
use Prim.Native.String.{find, len}
use ibkr_bot.Base.{
  ℕ, nat_eq, String, Bool, true, false, Option, some, none, List, [], ◌∷◌, ◌/◌, ◌==◌, ◌&&◌, ◌||◌,
  if◌then◌else◌, ltb, leb,
}
use ibkr_bot.Base.Map.{Map, lookup, insert, remove}
use ibkr_bot.Base.Float.{Float}
use ibkr_bot.Base.Int.{abs, is_positive, add_u32}
use ibkr_bot.Core.Types.{SymbolId, ask, bid, side_eq, limit}
use ibkr_bot.Core.Events.{
  Event, EventKind, FillData, OmsCommand, new_order, fill, heartbeat, state_sync, reject,
}
use ibkr_bot.Core.Accounting.{compute_unrealized_pnl}
use ibkr_bot.Risk.Pdt.{record_day_trade}
use ibkr_bot.Risk.State.{RiskState, update_pnl, should_terminate, rebuild_state, block_symbol}
use ibkr_bot.Runtime.Keys.{idempotency_key_stack}
use ibkr_bot.Runtime.Orders.{sell_or_buy}
use ibkr_bot.Runtime.Positions.{RiskPosition, new_risk_position, risk_fill, trade_pnl}

pub record RiskTask (F : Type 0) : Type 0 where
  pub positions : Map SymbolId (RiskPosition F)
  pub intraday_buy_tracker : Map SymbolId (ℕ × Bool)
  pub global_realized_pnl : F

-- What an event of the risk task does: to its state, to the risk state, to the runtime.
pub record RiskStep (F : Type 0) : Type 0 where
  pub task : RiskTask F
  pub risk : RiskState F
  pub commands : List (OmsCommand F)
  pub shutdown : Bool

-- `contains` of a text.
abbrev pub has_text : String → String → Bool
has_text text part = leb (find text part) (len text)

abbrev pub bought_on : ℕ → Option (ℕ × Bool) → Bool
bought_on today (some (buy_date, has_buy)) = has_buy && buy_date == today
bought_on today none = false

abbrev pub amount_or : {F : Type 0} → Option F → F → F
amount_or (some x) otherwise = x
amount_or none otherwise = otherwise

module _ {F : Type 0} ⦃f : Float F⦄ where
  abbrev pub new_risk_task : RiskTask F
  new_risk_task = record {
    positions = [];
    intraday_buy_tracker = [];
    global_realized_pnl = f.lit 0 0;
  }

  abbrev pub position_or_new : RiskTask F → SymbolId → RiskPosition F
  position_or_new t symbol = elim (lookup symbol t.positions) [
    | some p ↦ p
    | none ↦ new_risk_position
  ]

  -- The proceeds of a sale, which settle on the next day.
  unfoldable pub add_proceeds : ℕ → FillData F → RiskState F → RiskState F
  add_proceeds today report r =
      let settle_date = add_u32 today 1 in
      let current = amount_or (lookup settle_date r.unsettled_proceeds) (f.lit 0 0) in
      record r {
        unsettled_proceeds =
            insert settle_date (f.plus current (f.times (f.of_nat report.size) report.price))
              r.unsettled_proceeds;
      }

  -- The settlement and the day trades that a fill brings.
  unfoldable pub settle :
      ℕ → SymbolId → FillData F → RiskTask F → RiskState F → RiskTask F × RiskState F
  unfolding add_proceeds record_day_trade
  settle today symbol report t r =
      let paid = add_proceeds today report r in
      if report.side == bid
      then (
        record t { intraday_buy_tracker = insert symbol (today, true) t.intraday_buy_tracker },
        r,
      )
      else if bought_on today (lookup symbol t.intraday_buy_tracker)
      then (
        record t { intraday_buy_tracker = remove symbol t.intraday_buy_tracker },
        record paid { pdt_guard = record_day_trade paid.pdt_guard today symbol },
      )
      else (t, paid)

  -- Half of a long position that has gained fifty dollars or a tenth.
  unfoldable pub partial_exit : SymbolId → ℕ → FillData F → RiskPosition F → List (OmsCommand F)
  unfolding compute_unrealized_pnl idempotency_key_stack
  partial_exit symbol ts_src report p =
      let gross_total = compute_unrealized_pnl p.qty p.avg_cost report.price in
      let price_move_pct = f.over (f.minus report.price p.avg_cost) p.avg_cost in
      let exit_qty = abs p.qty / 2 in
      let should_exit = f.le (f.lit 50 0) gross_total || f.le (f.lit 10 2) price_move_pct in
      if is_positive p.qty && f.lt (f.lit 0 0) p.avg_cost && should_exit && ltb 0 exit_qty
      then new_order (
          sell_or_buy symbol ask exit_qty limit (some report.price)
            (idempotency_key_stack "PARTIAL-EXIT" symbol ts_src))
        ∷ []
      else []

  unfoldable pub book_fill : (ℕ → ℕ) → Event F → FillData F → RiskTask F → RiskState F → RiskStep F
  unfolding risk_fill trade_pnl settle update_pnl partial_exit
  book_fill market_day event report t r =
      let before = position_or_new t event.symbol_id in
      let p = risk_fill before report in
      let booked = record t {
        positions = insert event.symbol_id p t.positions;
        global_realized_pnl = trade_pnl before report t.global_realized_pnl;
      } in
      let settled = settle (market_day event.ts_src) event.symbol_id report booked r in
      record {
        task = settled.0;
        risk = update_pnl settled.1 booked.global_realized_pnl;
        commands = partial_exit event.symbol_id event.ts_src report p;
        shutdown = false;
      }

  abbrev pub unchanged : RiskTask F → RiskState F → Bool → RiskStep F
  unchanged t r shutdown = record { task = t; risk = r; commands = []; shutdown = shutdown }

  -- One event, by its kind.
  unfoldable pub risk_event :
      (ℕ → ℕ) → Event F → EventKind F → RiskTask F → RiskState F → RiskStep F
  unfolding book_fill should_terminate rebuild_state block_symbol
  risk_event market_day event (fill report) t r = book_fill market_day event report t r
  risk_event market_day event heartbeat t r = unchanged t r (should_terminate r)
  risk_event market_day event (state_sync sync) t r =
      unchanged t (rebuild_state r sync.positions) false
  risk_event market_day event (reject rejection) t r =
      let r' =
        if has_text rejection.reason "DELISTING" || has_text rejection.reason "COMPLIANCE"
        then block_symbol r event.symbol_id
        else r in
      unchanged t r' false
  risk_event market_day event _ t r = unchanged t r false
