-- ===== src/Runtime/NoEntry.antt =====
-- The fast loop as it is wired, where nothing calls `update_tier`:
-- rust/crates/app_runtime/src/lib.rs.
use ibkr_bot.Base.{
  ℕ, nat_eq, Bool, true, false, not, Option, some, none, List, [], ◌∷◌, ◌++◌, ◌≡◌, ◌⊎◌, inl, inr,
  All, All-append, All-imp, if◌then◌else◌, ltb, contains, ◌&&◌,
}
use ibkr_bot.Base.Map.{Map, lookup, insert}
use ibkr_bot.Base.Result.{is_ok}
use ibkr_bot.Base.Float.{Float}
use ibkr_bot.Core.Types.{SymbolId, ask, market}
use ibkr_bot.Core.Events.{Event, EventKind, TickData, OmsCommand, new_order, cancel_order, tick}
use ibkr_bot.Risk.Blocklist.{World}
use ibkr_bot.Risk.Session.{new_session_guard, entry_allowed}
use ibkr_bot.Risk.State.{RiskState}
use ibkr_bot.Tape.State.{SymbolState, TapeEngine, should_terminate, set_daily_target_reached}
use ibkr_bot.Tape.Events.{on_event}
use ibkr_bot.Tape.Steps.{Everywhere, on_event-P}
use ibkr_bot.Tape.Refusals.{LowTier, LowTier-Closed, low_tier-refuses}
use ibkr_bot.Runtime.Orders.{FastConfig, close_all, entry_size, entry_order}
use ibkr_bot.Runtime.Fast.{
  FastLoop, new_fast_loop, resume, note_target, with_engine, fast_tick, fast_other, is_halt,
  is_fill, note_halt, fast_event,
}
use ibkr_bot.Runtime.Commands.{Justified, IsClosing, IsEmergencyExit, fast_event-Justified}

-- What the fast loop meets: an event, the risk state as the other tasks left it, and the world.
pub record FastInput (F : Type 0) : Type 0 where
  pub world : World
  pub risk_state : RiskState F
  pub event : Event F

-- A sale, or an order at the market.
abbrev pub IsExit : {F : Type 0} → OmsCommand F → Type 0
IsExit (new_order order) = (order.side ≡ ask) ⊎ (order.order_type ≡ market)
IsExit (cancel_order r) = Unit {0}

abbrev pub meet : {F : Type 0} → FastLoop F → RiskState F → FastLoop F
meet l r = record l { tape_engine = record l.tape_engine { risk_state = r } }

if-holds : {A : Type 0} (Q : A → Type 0) (b : Bool) (x y : A) → Q x → Q y → Q (if b then x else y)
if-holds Q true x y p q = p
if-holds Q false x y p q = q

choose-holds :
    {F : Type 0} (Q : FastLoop F → Type 0) (allowed disabled : Bool)
    (x y z : FastLoop F × List (OmsCommand F))
    → Q x.0
    → Q y.0
    → Q z.0
    → Q (if not allowed then x else if disabled then y else z).0
choose-holds Q false disabled x y z p q r = p
choose-holds Q true true x y z p q r = q
choose-holds Q true false x y z p q r = r

stop-holds :
    {F : Type 0} (Q : FastLoop F → Type 0) (stopped breached : Bool)
    (x y z : FastLoop F × List (OmsCommand F))
    → Q x.0
    → Q y.0
    → Q z.0
    → Q (if stopped then x else if breached then y else z).0
stop-holds Q true breached x y z p q r = p
stop-holds Q false true x y z p q r = q
stop-holds Q false false x y z p q r = r

closing-IsExit :
    {F : Type 0} (states : Map SymbolId (SymbolState F)) (command : OmsCommand F)
    → IsClosing states command
    → IsExit command
closing-IsExit states (cancel_order r) h = tt
closing-IsExit [] (new_order order) h = elim h [ ]
closing-IsExit (x ∷ states) (new_order order) (inl h) = inr h.2
closing-IsExit (x ∷ states) (new_order order) (inr h) = closing-IsExit states (new_order order) h

module _ {F : Type 0} ⦃f : Float F⦄ where
  abbrev Low : FastLoop F → Type 0
  Low l = Everywhere LowTier LowTier-Closed l.tape_engine

  note_halt-Low : (l : FastLoop F) (event : Event F) → Low l → Low (note_halt l event)
  note_halt-Low l event low =
      if-holds Low (is_halt event.kind)
        (record l {
          halted_symbols_fast = insert event.symbol_id event.ts_src l.halted_symbols_fast;
        })
        l low low

  resume-Low :
      (l : FastLoop F) (symbol : SymbolId) (ts_src : ℕ) (price : F) (found : Option ℕ)
      → Low l
      → Low (resume l symbol ts_src price found).0
  unfolding resume
  resume-Low l symbol ts_src price none low = low
  resume-Low l symbol ts_src price (some halt_ts) low = low

  note_target-Low :
      (e : TapeEngine F)
      → Everywhere LowTier LowTier-Closed e
      → Everywhere LowTier LowTier-Closed (note_target e)
  unfolding note_target set_daily_target_reached
  note_target-Low e low =
      if-holds (Everywhere LowTier LowTier-Closed)
        (f.le (f.lit 50 0) e.global_realized_pnl && not e.daily_target_reached)
        (record e { daily_target_reached = true }) e low low

  module _ (market_day eastern : ℕ → ℕ) (c : FastConfig F) where
    fast_tick-Low :
        (w : World) (l : FastLoop F) (event : Event F) (trade : TickData F)
        → Low l
        → Low (fast_tick market_day eastern c w l event trade).0
    unfolding fast_tick
    fast_tick-Low w l event trade low =
        let e = l.tape_engine in
        let qty = entry_size c e event.symbol_id trade.price (market_day event.ts_src) in
        let sized = with_engine l (record e { last_sizing_shares = qty }) in
        let woken =
          resume sized event.symbol_id event.ts_src trade.price
            (lookup event.symbol_id l.halted_symbols_fast) in
        let asked = on_event w market_day sized.tape_engine event in
        let command = new_order (entry_order c e event.symbol_id event.ts_src trade.price qty) in
        let still = on_event-P LowTier LowTier-Closed w market_day sized.tape_engine event low in
        choose-holds Low
          (entry_allowed eastern (new_session_guard c.pre_after_enabled) event.ts_src)
          (contains woken.0.disabled_symbols_session event.symbol_id)
          (with_engine sized asked.1, []) woken
          (
            with_engine woken.0 asked.1,
            woken.1 ++ (if is_ok asked.0 && ltb 0 qty then command ∷ [] else []),
          )
          still
          (resume-Low sized event.symbol_id event.ts_src trade.price
            (lookup event.symbol_id l.halted_symbols_fast) low)
          still

    fast_other-Low :
        (w : World) (l : FastLoop F) (event : Event F)
        → Low l
        → Low (fast_other market_day eastern c w l event)
    unfolding fast_other
    fast_other-Low w l event low =
        let after = (on_event w market_day l.tape_engine event).1 in
        let still = on_event-P LowTier LowTier-Closed w market_day l.tape_engine event low in
        if-holds Low (contains l.disabled_symbols_session event.symbol_id) l
          (with_engine l (if is_fill event.kind then note_target after else after)) low
          (if-holds (Everywhere LowTier LowTier-Closed) (is_fill event.kind) (note_target after)
            after (note_target-Low after still) still)

    kind-Low :
        (k : EventKind F) (x : TickData F → FastLoop F × List (OmsCommand F)) (y : FastLoop F)
        → ((trade : TickData F) → Low (x trade).0)
        → Low y
        → Low (
            let done : FastLoop F × List (OmsCommand F) = elim k [
              | tick trade ↦ x trade
              | _ ↦ (y, [])
            ] in
            done.0)
    kind-Low (tick trade) x y p q = p trade
    kind-Low _ x y p q = q

    fast_event-Low :
        (w : World) (l : FastLoop F) (event : Event F)
        → Low l
        → Low (fast_event market_day eastern c w l event).0
    unfolding fast_event
    fast_event-Low w l event low =
        let noted = note_halt l event in
        let still = note_halt-Low l event low in
        let going : FastLoop F × List (OmsCommand F) = elim event.kind [
          | tick trade ↦ fast_tick market_day eastern c w noted event trade
          | _ ↦ (fast_other market_day eastern c w noted event, [])
        ] in
        stop-holds Low l.stopped (should_terminate l.tape_engine) (l, [])
          (record noted { stopped = true }, close_all event.ts_src l.tape_engine.symbol_states)
          going low still
          (kind-Low event.kind (λ trade. fast_tick market_day eastern c w noted event trade)
            (fast_other market_day eastern c w noted event)
            (λ trade. fast_tick-Low w noted event trade still) (fast_other-Low w noted event still))

    emergency_closes :
        (l : FastLoop F) (symbol : SymbolId) (ts_src : ℕ) (command : OmsCommand F)
        → IsEmergencyExit l symbol ts_src command
        → IsExit command
    emergency_closes l symbol ts_src (new_order order) h =
        let (s, t, _, _, _, _, _, side, _) = h in inl side
    emergency_closes l symbol ts_src (cancel_order r) h = tt

    not_entry :
        (w : World) (l : FastLoop F) (event : Event F) (command : OmsCommand F)
        → Low l
        → Justified market_day eastern c w l event command
        → IsExit command
    not_entry w l event command low (inl h) = closing-IsExit l.tape_engine.symbol_states command h.1
    not_entry w l event command low (inr (trade, kind, _, inl h)) =
        emergency_closes (note_halt l event) event.symbol_id event.ts_src command h
    not_entry w l event command low (inr (trade, kind, _, inr h)) =
        let (_, _, _, passed) = h in
        elim (low_tier-refuses w market_day
          (record (note_halt l event).tape_engine {
            last_sizing_shares =
                entry_size c (note_halt l event).tape_engine event.symbol_id trade.price
                  (market_day event.ts_src);
          })
          event trade kind (note_halt-Low l event low) passed) [ ]

    -- The loop over the events that it meets, and all that it sends.
    unfoldable pub run_fast : FastLoop F → List (FastInput F) → FastLoop F × List (OmsCommand F)
    unfolding fast_event
    run_fast l [] = (l, [])
    run_fast l (input ∷ inputs) =
        let once =
          fast_event market_day eastern c input.world (meet l input.risk_state) input.event in
        let rest = run_fast once.0 inputs in (rest.0, once.1 ++ rest.1)

    run_fast-IsExit :
        (l : FastLoop F) (inputs : List (FastInput F)) → Low l → All IsExit (run_fast l inputs).1
    unfolding run_fast
    run_fast-IsExit l [] low = tt
    run_fast-IsExit l (input ∷ inputs) low =
        let before = meet l input.risk_state in
        let once = fast_event market_day eastern c input.world before input.event in
        All-append IsExit once.1 (run_fast once.0 inputs).1
          (All-imp _ _ once.1 (λ command h. not_entry input.world before input.event command low h)
            (fast_event-Justified market_day eastern c input.world before input.event))
          (run_fast-IsExit once.0 inputs (fast_event-Low input.world before input.event low))

    -- From its start on, whatever it meets, the fast loop sends only sales and market orders: it never
    -- enters a position.
    pub fast_loop-never_enters :
        (r : RiskState F) (inputs : List (FastInput F))
        → All IsExit (run_fast (new_fast_loop c r) inputs).1
    fast_loop-never_enters r inputs = run_fast-IsExit (new_fast_loop c r) inputs tt
