-- ===== src/Runtime/Commands.antt =====
-- The commands that the fast loop sends: rust/crates/app_runtime/src/lib.rs.
use mathlib.Core.Path.{subst}
use ibkr_bot.Base.{
  ℕ, nat_eq, Bool, true, false, not, Option, some, none, List, [], ◌∷◌, ◌++◌, ◌-◌, ◌/◌, ◌≡◌, ◌⊎◌,
  inl, inr, refl, sym, arith, All, All-append, All-imp, ltb, leb, ◌&&◌, contains, Bool-cases,
  Option-cases, if◌then◌else◌, and_left, and_right,
}
use ibkr_bot.Base.Map.{Map, lookup}
use ibkr_bot.Base.Result.{ok, err, is_ok}
use ibkr_bot.Base.Float.{Float}
use ibkr_bot.Base.Int.{abs, is_zero, is_positive}
use ibkr_bot.Core.Types.{SymbolId, ask, bid, market}
use ibkr_bot.Core.Events.{Event, EventKind, TickData, OmsCommand, new_order, cancel_order, tick}
use ibkr_bot.Risk.Blocklist.{World}
use ibkr_bot.Risk.Guards.{Verdict}
use ibkr_bot.Risk.Session.{new_session_guard, entry_allowed}
use ibkr_bot.Tape.State.{SymbolState, should_terminate}
use ibkr_bot.Tape.Events.{on_event}
use ibkr_bot.Runtime.Orders.{FastConfig, close_all, entry_size, entry_order, emergency_exit}
use ibkr_bot.Runtime.Fast.{
  FastLoop, resume, with_engine, fast_tick, fast_other, note_halt, fast_event,
}

is_ok-passes : (m : Verdict) → is_ok m ≡ true → m ≡ ok tt
is_ok-passes (ok _) h = refl
is_ok-passes (err e) h = ground arith

-- `P` holds of an entry of the table.
abbrev pub SomeEntry : {V : Type 0} → (SymbolId → V → Type 0) → Map SymbolId V → Type 0
SomeEntry P [] = ⊥
SomeEntry P ((k, v) ∷ m) = P k v ⊎ SomeEntry P m

-- The market order that closes an open position of the table.
abbrev pub IsClosing : {F : Type 0} → Map SymbolId (SymbolState F) → OmsCommand F → Type 0
IsClosing states (cancel_order r) = ⊥
IsClosing states (new_order order) =
    SomeEntry
      (λ symbol s.
        (order.symbol_id ≡ symbol)
        × (is_zero s.position ≡ false)
        × (order.order_type ≡ market)
        × (order.side ≡ (if is_positive s.position then ask else bid))
        × (order.qty ≡ abs s.position))
      states

later :
    {F : Type 0} (x : SymbolId × SymbolState F) (states : Map SymbolId (SymbolState F))
    (command : OmsCommand F)
    → IsClosing states command
    → IsClosing (x ∷ states) command
later x states (new_order order) h = inr h
later x states (cancel_order r) h = elim h [ ]

close_all-Closing :
    {F : Type 0} (ts_src : ℕ) (states : Map SymbolId (SymbolState F))
    → All (IsClosing states) (close_all ts_src states)
unfolding close_all
close_all-Closing ts_src [] = tt
close_all-Closing ts_src ((symbol, s) ∷ states) =
    let rest =
      All-imp _ _ (close_all ts_src states) (later (symbol, s) states)
        (close_all-Closing ts_src states) in
    elim (Bool-cases (is_zero s.position)) [
      | inl z ↦ rw z rest
      | inr z ↦ rw z (inl (refl, z, refl, refl, refl), rest)
    ]

module _ {F : Type 0} ⦃f : Float F⦄ where
  -- The sale of a whole position after a halt of five minutes or more.
  abbrev pub IsEmergencyExit : FastLoop F → SymbolId → ℕ → OmsCommand F → Type 0
  IsEmergencyExit l symbol ts_src (cancel_order r) = ⊥
  IsEmergencyExit l symbol ts_src (new_order order) =
      (s : SymbolState F) × (halt_ts : ℕ) × (lookup symbol l.halted_symbols_fast ≡ some halt_ts)
      × (leb 300 ((ts_src - halt_ts) / 1_000_000) ≡ true)
      × (lookup symbol l.tape_engine.symbol_states ≡ some s)
      × (is_positive s.position ≡ true)
      × (order.symbol_id ≡ symbol)
      × (order.side ≡ ask)
      × (order.qty ≡ abs s.position)

  emergency_exit-Justified :
      (l : FastLoop F) (symbol : SymbolId) (ts_src : ℕ) (price : F) (halt_ts : ℕ)
      → lookup symbol l.halted_symbols_fast ≡ some halt_ts
      → All
          (IsEmergencyExit l symbol ts_src)
          (emergency_exit l.tape_engine.symbol_states symbol ts_src price halt_ts)
  unfolding emergency_exit
  emergency_exit-Justified l symbol ts_src price halt_ts halted =
      elim (Option-cases (lookup symbol l.tape_engine.symbol_states)) [
        | inl e ↦ rw (emergency_exit, e) tt
        | inr (s, e) ↦
            let long = is_positive s.position in
            let over = leb 300 ((ts_src - halt_ts) / 1_000_000) in
            elim (Bool-cases (long && over)) [
              | inl t ↦
                  rw (emergency_exit, e, t)
                    (
                      (
                        s,
                        halt_ts,
                        halted,
                        and_right long over t,
                        e,
                        and_left long over t,
                        refl,
                        refl,
                        refl,
                      ),
                      tt,
                    )
              | inr t ↦ rw (emergency_exit, e, t) tt
            ]
      ]

  resume-Justified :
      (l l' : FastLoop F) (symbol : SymbolId) (ts_src : ℕ) (price : F) (found : Option ℕ)
      → lookup symbol l.halted_symbols_fast ≡ found
      → l'.tape_engine.symbol_states ≡ l.tape_engine.symbol_states
      → All (IsEmergencyExit l symbol ts_src) (resume l' symbol ts_src price found).1
  unfolding resume
  resume-Justified l l' symbol ts_src price none halted same = tt
  resume-Justified l l' symbol ts_src price (some halt_ts) halted same =
      subst
        (λ states.
          All (IsEmergencyExit l symbol ts_src) (emergency_exit states symbol ts_src price halt_ts))
        (sym same) (emergency_exit-Justified l symbol ts_src price halt_ts halted)

  choose-All :
      (P : OmsCommand F → Type 0) (allowed disabled : Bool)
      (x y z : FastLoop F × List (OmsCommand F))
      → All P x.1
      → (allowed ≡ true → All P y.1)
      → (allowed ≡ true → All P z.1)
      → All P (if not allowed then x else if disabled then y else z).1
  choose-All P false disabled x y z p q r = p
  choose-All P true true x y z p q r = q refl
  choose-All P true false x y z p q r = r refl

  stop-All :
      (P : OmsCommand F → Type 0) (stopped breached : Bool)
      (x y z : FastLoop F × List (OmsCommand F))
      → All P x.1
      → (breached ≡ true → All P y.1)
      → (breached ≡ false → All P z.1)
      → All P (if stopped then x else if breached then y else z).1
  stop-All P true breached x y z p q r = p
  stop-All P false true x y z p q r = q refl
  stop-All P false false x y z p q r = r refl

  entries-All :
      (P : OmsCommand F → Type 0) (passed : Bool) (command : OmsCommand F)
      → (passed ≡ true → P command)
      → All P (if passed then command ∷ [] else [])
  entries-All P true command p = (p refl, tt)
  entries-All P false command p = tt

  module _ (market_day eastern : ℕ → ℕ) (c : FastConfig F) where
    -- An entry that the session, the halts and every gate of the tape engine let through.
    abbrev pub IsEntry : World → FastLoop F → Event F → TickData F → OmsCommand F → Type 0
    IsEntry w l event trade command =
        let e = l.tape_engine in
        let qty = entry_size c e event.symbol_id trade.price (market_day event.ts_src) in
        (command ≡ new_order (entry_order c e event.symbol_id event.ts_src trade.price qty))
        × (ltb 0 qty ≡ true)
        × (entry_allowed eastern (new_session_guard c.pre_after_enabled) event.ts_src ≡ true)
        × ((on_event w market_day (record e { last_sizing_shares = qty }) event).0 ≡ ok tt)

    fast_tick-Justified :
        (w : World) (l : FastLoop F) (event : Event F) (trade : TickData F)
        → All
            (λ command.
              IsEmergencyExit l event.symbol_id event.ts_src command
              ⊎ IsEntry w l event trade command)
            (fast_tick market_day eastern c w l event trade).1
    unfolding fast_tick
    fast_tick-Justified w l event trade =
        let P = λ (command : OmsCommand F).
          IsEmergencyExit l event.symbol_id event.ts_src command
          ⊎ IsEntry w l event trade command in
        let e = l.tape_engine in
        let qty = entry_size c e event.symbol_id trade.price (market_day event.ts_src) in
        let sized = with_engine l (record e { last_sizing_shares = qty }) in
        let woken =
          resume sized event.symbol_id event.ts_src trade.price
            (lookup event.symbol_id l.halted_symbols_fast) in
        let asked = on_event w market_day sized.tape_engine event in
        let command = new_order (entry_order c e event.symbol_id event.ts_src trade.price qty) in
        let passed = is_ok asked.0 && ltb 0 qty in
        let allowed = entry_allowed eastern (new_session_guard c.pre_after_enabled) event.ts_src in
        let exits : All P woken.1 =
          All-imp _ P woken.1 (λ _ x. inl x)
            (resume-Justified l sized event.symbol_id event.ts_src trade.price _ refl refl) in
        choose-All P allowed (contains woken.0.disabled_symbols_session event.symbol_id)
          (with_engine sized asked.1, []) woken
          (with_engine woken.0 asked.1, woken.1 ++ (if passed then command ∷ [] else [])) tt
          (λ _. exits)
          (λ on. All-append P woken.1 _ exits (
            entries-All P passed command (λ h. inr (
              refl,
              and_right (is_ok asked.0) (ltb 0 qty) h,
              on,
              is_ok-passes asked.0 (and_left (is_ok asked.0) (ltb 0 qty) h),
            ))))

    kind-All :
        (P : OmsCommand F → Type 0) (k : EventKind F)
        (x : TickData F → FastLoop F × List (OmsCommand F)) (y : FastLoop F)
        → ((trade : TickData F) → k ≡ tick trade → All P (x trade).1)
        → All P (
            let done : FastLoop F × List (OmsCommand F) = elim k [
              | tick trade ↦ x trade
              | _ ↦ (y, [])
            ] in
            done.1)
    kind-All P (tick trade) x y h = h trade refl
    kind-All P _ x y h = tt

    -- Why a command is sent.
    abbrev pub Justified : World → FastLoop F → Event F → OmsCommand F → Type 0
    Justified w l event command =
        ((should_terminate l.tape_engine ≡ true) × IsClosing l.tape_engine.symbol_states command)
        ⊎ ((trade : TickData F) × (event.kind ≡ tick trade)
            × (should_terminate l.tape_engine ≡ false)
            × (IsEmergencyExit (note_halt l event) event.symbol_id event.ts_src command
                ⊎ IsEntry w (note_halt l event) event trade command))

    -- Every command of the fast loop is justified: once the loss limit is reached, it closes an open
    -- position at the market; else, at a tick, it sells the whole position of a symbol that was halted
    -- for five minutes, or it is the entry, of a size that is not 0, in a session that allows it, that
    -- the tape engine let pass.
    pub fast_event-Justified :
        (w : World) (l : FastLoop F) (event : Event F)
        → All (Justified w l event) (fast_event market_day eastern c w l event).1
    unfolding fast_event
    fast_event-Justified w l event =
        let noted = note_halt l event in
        let closing = close_all event.ts_src l.tape_engine.symbol_states in
        let breached = should_terminate l.tape_engine in
        stop-All (Justified w l event) l.stopped breached (l, [])
          (record noted { stopped = true }, closing) _ tt
          (λ t.
            All-imp _ _ closing (λ _ x. inl (t, x))
              (close_all-Closing event.ts_src l.tape_engine.symbol_states))
          (λ t.
            kind-All (Justified w l event) event.kind
              (λ trade. fast_tick market_day eastern c w noted event trade)
              (fast_other market_day eastern c w noted event)
              (λ trade k.
                All-imp _ _ _ (λ _ x. inr (trade, k, t, x))
                  (fast_tick-Justified w noted event trade)))
