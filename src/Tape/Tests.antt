-- ===== src/Tape/Tests.antt =====
-- The theorems on the tape engine at concrete inputs, and runs of it:
-- rust/crates/tape_engine/src/lib.rs.
use ibkr_bot.Base.{nat_eq, false, some, List, [], ◌∷◌, ◌+◌, ◌%◌, ◌^◌, ◌≡◌, ◌≢◌, ◌↔◌, refl}
use ibkr_bot.Base.Map.{lookup, Entries}
use ibkr_bot.Base.Result.{ok}
use ibkr_bot.Base.Int.{as_u32}
use ibkr_bot.Base.Float.{Decimal, decimal_float}
use ibkr_bot.Core.Types.{a, guard_spread}
use ibkr_bot.Core.Events.{fill, tick, reconnect}
use ibkr_bot.Core.TimeBuffer.{len, prune_expired, push, new, prune_from}
use ibkr_bot.Risk.Guards.{
  GuardEvaluator, check_execution, state_of, standing_block, track_event, track_state,
  default_config, new_guard_state,
}
use ibkr_bot.Risk.State.{check_entry}
use ibkr_bot.Tape.State.{SymbolState, TapeEngine}
use ibkr_bot.Tape.Entry.{open_symbols, entry_quote, evaluate_entry_logic}
use ibkr_bot.Tape.Events.{on_event}
use ibkr_bot.Tape.Gates.{EarlyPass, LatePass, evaluate_entry_logic-eq-ok_iff}
use ibkr_bot.Tape.History.{Call, events, tiers, contexts, run}
use ibkr_bot.Tape.Sound.{IsSound, run-IsSound}
use ibkr_bot.Tape.Refusals.{reconnect-refuses}
use ibkr_bot.Tape.Position.{position_of, tape_fills, bought, sold, tape_fills-balance}
use ibkr_bot.Tape.Sample.{
  sample_world, days, sample_risk, sample_config, free, fresh_engine, ready_engine, in_play,
  event_of, trade, purchase,
}

evaluate_entry_logic-eq-ok_iff_example :
    let held = open_symbols 2 ready_engine.symbol_states in
    ((evaluate_entry_logic sample_world ready_engine 7 5000 3).0 ≡ ok tt) ↔ (
      (ready_engine.risk_state.monitor_only ≡ false)
      × (state : SymbolState Decimal) × (lookup 7 ready_engine.symbol_states ≡ some state)
      × (state.tier ≡ a)
      × ((check_entry sample_world ready_engine.risk_state 7 held 3).0 ≡ ok tt)
      × EarlyPass ready_engine state
      × ((check_execution ready_engine.guard_evaluator 7 5000 (entry_quote state 5000)).0 ≡ ok tt)
      × LatePass ready_engine state 7 held)
evaluate_entry_logic-eq-ok_iff_example =
    evaluate_entry_logic-eq-ok_iff sample_world ready_engine 7 5000 3

abbrev a_day : List (Call Decimal)
a_day =
    tiers 7 a
    ∷ contexts in_play
    ∷ events sample_world (event_of 5000 (tick trade))
    ∷ events sample_world (event_of 6000 (fill (purchase 100)))
    ∷ []

run-IsSound_example : Entries (λ _ s. IsSound s) (run days fresh_engine a_day).symbol_states
run-IsSound_example = run-IsSound days sample_risk default_config sample_config free a_day

tracked : (track_event ready_engine.guard_evaluator 7 5000).0 ≡ ok tt
unfolding track_event track_state standing_block state_of lookup len prune_expired push new
    prune_from
tracked = refl

reconnect-refuses_example :
    let after = (on_event sample_world days ready_engine (event_of 5000 reconnect)).1 in
    (on_event sample_world days
      (run days after (contexts in_play ∷ []))
      (event_of 9000 (tick trade))).0
    ≢ ok tt
reconnect-refuses_example =
    reconnect-refuses sample_world sample_world days ready_engine (event_of 5000 reconnect)
      (contexts in_play ∷ []) (event_of 9000 (tick trade)) trade refl tracked (refl, tt) refl

tape_fills-balance_example :
    let fs = purchase 100 ∷ purchase 50 ∷ [] in
    (as_u32 (position_of (tape_fills ready_engine 7 fs) 7) + sold fs) % 2 ^ 32
    ≡ (as_u32 (position_of ready_engine 7) + bought fs) % 2 ^ 32
tape_fills-balance_example = tape_fills-balance ready_engine 7 (purchase 100 ∷ purchase 50 ∷ [])

abbrev blocked_guard : GuardEvaluator Decimal
blocked_guard = record {
  config = default_config;
  states =
      (
        7,
        record (new_guard_state 20 1000) { blocked_until = 9000; block_reason = some guard_spread },
      )
      ∷ [];
}

abbrev blocked_engine : TapeEngine Decimal
blocked_engine = record ready_engine { guard_evaluator = blocked_guard }

stands : standing_block (state_of blocked_engine.guard_evaluator 7) 8000 ≡ some guard_spread
unfolding standing_block state_of lookup
stands = refl
