-- ===== src/Runtime/Tests.antt =====
-- The theorems on the tasks at concrete inputs: rust/crates/app_runtime/src/lib.rs.
use ibkr_bot.Base.{ℕ, nat_eq, false, List, [], ◌∷◌, ◌%◌, refl, All}
use ibkr_bot.Base.Map.{lookup, insert}
use ibkr_bot.Core.TimeBuffer.{new, push, prune_expired, prune_from, len}
use ibkr_bot.Risk.Guards.{track_event, track_state, state_of, standing_block, block_for}
use ibkr_bot.Tape.Events.{on_event, handle, process_fill}
use ibkr_bot.Base.Float.{Decimal, decimal_float}
use ibkr_bot.Core.Events.{Event, FillData, fill, tick, heartbeat}
use ibkr_bot.Tape.Sample.{
  cents, sample_world, days, sample_risk, sample_config, ready_engine, fresh_engine, event_of,
  trade, purchase,
}
use ibkr_bot.Runtime.Ledgers.{starting, hear, hear_all, RefusesNone, AgreeOn, ledgers_agree}
use ibkr_bot.Runtime.Orders.{FastConfig}
use ibkr_bot.Runtime.Fast.{FastLoop, new_fast_loop, fast_event}
use ibkr_bot.Runtime.Commands.{Justified, fast_event-Justified}
use ibkr_bot.Runtime.NoEntry.{FastInput, IsExit, run_fast, fast_loop-never_enters}

abbrev told_twice : List (Event Decimal × FillData Decimal)
told_twice =
    (event_of 5_000_000 heartbeat, purchase 100) ∷ (event_of 9_000_000 heartbeat, purchase 50) ∷ []

told_twice-RefusesNone : RefusesNone sample_world days 0 (starting fresh_engine) told_twice
unfolding hear on_event handle process_fill track_event track_state state_of standing_block new push
    prune_expired prune_from len lookup insert block_for
told_twice-RefusesNone = (refl, (refl, tt))

ledgers_agree_example :
    AgreeOn sample_world days 0 (hear_all sample_world days 0 (starting fresh_engine) told_twice) 7
ledgers_agree_example =
    ledgers_agree sample_world days 0 fresh_engine told_twice 7 refl told_twice-RefusesNone

abbrev fast_config : FastConfig Decimal
fast_config = record {
  risk = record {
    max_daily_loss_usd = cents 50000;
    risk_per_trade_usd = cents 5000;
    max_position_pct = cents 10;
    budget_cap_pct = cents 20;
    account_capital_usd = cents 2500000;
  };
  pricing = record {
    k_atr = cents 150;
    min_stop_pct = cents 1;
    min_stop_abs_usd = cents 5;
    anti_chase_runup_pct = cents 5;
    slippage_alpha = cents 0;
    slippage_beta = cents 0;
    sec_fee_rate = cents 0;
    taf_rate = cents 0;
    commission_per_share = cents 0;
    min_net_profit_usd = cents 0;
  };
  tape = sample_config;
  pre_after_enabled = false;
}

abbrev clock : ℕ → ℕ
clock seconds = seconds % 86400

abbrev ready_loop : FastLoop Decimal
ready_loop = record (new_fast_loop fast_config sample_risk) { tape_engine = ready_engine }

fast_event-Justified_example :
    All
      (Justified days clock fast_config sample_world ready_loop (event_of 5000 (tick trade)))
      (fast_event days clock fast_config sample_world ready_loop (event_of 5000 (tick trade))).1
fast_event-Justified_example =
    fast_event-Justified days clock fast_config sample_world ready_loop (event_of 5000 (tick trade))

abbrev inputs : List (FastInput Decimal)
inputs =
    record { world = sample_world; risk_state = sample_risk; event = event_of 5000 (tick trade) }
    ∷ record {
      world = sample_world;
      risk_state = sample_risk;
      event = event_of 6000 (fill (purchase 10));
    }
    ∷ []

fast_loop-never_enters_example :
    All IsExit (run_fast days clock fast_config (new_fast_loop fast_config sample_risk) inputs).1
fast_loop-never_enters_example = fast_loop-never_enters days clock fast_config sample_risk inputs
