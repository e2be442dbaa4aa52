-- ===== src/Runtime/Fast.antt =====
-- The fast loop of rust/crates/app_runtime/src/lib.rs. Its outputs are the commands it tries to send;
-- `stopped` is the end of the loop.
use ibkr_bot.Base.{
  ℕ, nat_eq, Bool, true, false, not, Option, some, none, List, [], ◌∷◌, ◌++◌, ◌-◌, ◌/◌, ◌&&◌,
  if◌then◌else◌, ltb, leb, contains,
}
use ibkr_bot.Base.Map.{Map, lookup, insert, remove}
use ibkr_bot.Base.Result.{is_ok}
use ibkr_bot.Base.Float.{Float}
use ibkr_bot.Core.Types.{SymbolId}
use ibkr_bot.Core.Events.{Event, EventKind, TickData, OmsCommand, new_order, tick, fill, halt}
use ibkr_bot.Risk.Blocklist.{World}
use ibkr_bot.Risk.Session.{new_session_guard, entry_allowed}
use ibkr_bot.Risk.Guards.{default_config}
use ibkr_bot.Risk.State.{RiskState, add_to}
use ibkr_bot.Tape.State.{TapeEngine, new_tape_engine, should_terminate, set_daily_target_reached}
use ibkr_bot.Tape.Events.{on_event}
use ibkr_bot.Runtime.Orders.{
  FastConfig, pricing_of, close_all, entry_size, entry_order, emergency_exit,
}

pub record FastLoop (F : Type 0) : Type 0 where
  pub tape_engine : TapeEngine F
  pub halted_symbols_fast : Map SymbolId ℕ
  pub disabled_symbols_session : List SymbolId
  pub stopped : Bool

abbrev pub with_engine : {F : Type 0} → FastLoop F → TapeEngine F → FastLoop F
with_engine l e = record l { tape_engine = e }

abbrev pub is_halt : {F : Type 0} → EventKind F → Bool
is_halt halt = true
is_halt _ = false

abbrev pub is_fill : {F : Type 0} → EventKind F → Bool
is_fill (fill report) = true
is_fill _ = false

abbrev pub note_halt : {F : Type 0} → FastLoop F → Event F → FastLoop F
note_halt l event =
    if is_halt event.kind
    then record l {
      halted_symbols_fast = insert event.symbol_id event.ts_src l.halted_symbols_fast;
    }
    else l

module _ {F : Type 0} ⦃f : Float F⦄ where
  abbrev pub new_fast_loop : FastConfig F → RiskState F → FastLoop F
  new_fast_loop c r = record {
    tape_engine = new_tape_engine r default_config c.tape (pricing_of c.pricing);
    halted_symbols_fast = [];
    disabled_symbols_session = [];
    stopped = false;
  }

  -- A tick of a symbol that was halted, of the symbols left to trade and the orders.
  unfoldable pub resume :
      FastLoop F → SymbolId → ℕ → F → Option ℕ → FastLoop F × List (OmsCommand F)
  unfolding emergency_exit
  resume l symbol ts_src price none = (l, [])
  resume l symbol ts_src price (some halt_ts) = (
    record l {
      disabled_symbols_session =
          if leb 300 ((ts_src - halt_ts) / 1_000_000)
          then add_to symbol l.disabled_symbols_session
          else l.disabled_symbols_session;
      halted_symbols_fast = remove symbol l.halted_symbols_fast;
    },
    emergency_exit l.tape_engine.symbol_states symbol ts_src price halt_ts,
  )

  -- The daily target, which a fill can reach.
  unfoldable pub note_target : TapeEngine F → TapeEngine F
  unfolding set_daily_target_reached
  note_target e =
      if f.le (f.lit 50 0) e.global_realized_pnl && not e.daily_target_reached
      then set_daily_target_reached e true
      else e

  module _ (market_day eastern : ℕ → ℕ) (c : FastConfig F) where
    -- A tick, in a loop that goes on.
    unfoldable pub fast_tick :
        World → FastLoop F → Event F → TickData F → FastLoop F × List (OmsCommand F)
    unfolding entry_size entry_allowed on_event resume entry_order
    fast_tick w l event trade =
        let qty =
          entry_size c l.tape_engine event.symbol_id trade.price (market_day event.ts_src) in
        let sized = with_engine l (record l.tape_engine { last_sizing_shares = qty }) in
        let woken =
          resume sized event.symbol_id event.ts_src trade.price
            (lookup event.symbol_id l.halted_symbols_fast) in
        let asked = on_event w market_day sized.tape_engine event in
        let order = entry_order c l.tape_engine event.symbol_id event.ts_src trade.price qty in
        let entries = if is_ok asked.0 && ltb 0 qty then new_order order ∷ [] else [] in
        if not (entry_allowed eastern (new_session_guard c.pre_after_enabled) event.ts_src)
        then (with_engine sized asked.1, [])
        else if contains woken.0.disabled_symbols_session event.symbol_id
        then woken
        else (with_engine woken.0 asked.1, woken.1 ++ entries)

    -- An event that is not a tick, in a loop that goes on.
    unfoldable pub fast_other : World → FastLoop F → Event F → FastLoop F
    unfolding on_event note_target
    fast_other w l event =
        let after = (on_event w market_day l.tape_engine event).1 in
        if contains l.disabled_symbols_session event.symbol_id
        then l
        else with_engine l (if is_fill event.kind then note_target after else after)

    unfoldable pub fast_event : World → FastLoop F → Event F → FastLoop F × List (OmsCommand F)
    unfolding should_terminate close_all fast_tick fast_other
    fast_event w l event =
        let noted = note_halt l event in
        let closing = close_all event.ts_src l.tape_engine.symbol_states in
        if l.stopped
        then (l, [])
        else if should_terminate l.tape_engine
        then (record noted { stopped = true }, closing)
        else elim event.kind [
          | tick trade ↦ fast_tick w noted event trade
          | _ ↦ (fast_other w noted event, [])
        ]
