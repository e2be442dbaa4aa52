-- ===== src/Runtime/SlowTests.antt =====
-- The theorems on the slow loop at concrete inputs: rust/crates/app_runtime/src/lib.rs.
use ibkr_bot.Base.{ℕ, Bool, false, List, [], ◌∷◌}
use ibkr_bot.Base.Float.{Decimal, decimal_float}
use ibkr_bot.Core.Events.{EventKind, tick, heartbeat}
use ibkr_bot.Signals.Regime.{default_regime}
use ibkr_bot.Signals.Context.{default_context}
use ibkr_bot.Signals.Mtf.{default_mtf}
use ibkr_bot.Tape.Sample.{sample_risk, event_of, trade}
use ibkr_bot.Runtime.Slow.{SlowConfig, SlowInput, new_slow_loop, run_slow}
use ibkr_bot.Runtime.Idle.{IsIdle, slow_loop-never_promotes}

abbrev slow_config : SlowConfig Decimal
slow_config = record {
  regime = default_regime;
  context = default_context;
  mtf = default_mtf;
  subscription_budget = 95;
  demotion_cycles = 10;
  eviction_cycles = 20;
  min_quality_score = decimal_float.lit 0 0;
  min_volume = 0;
}

abbrev no_risk : ℕ → Bool
no_risk ts = false

abbrev meets : EventKind Decimal → SlowInput Decimal
meets kind = record { event = event_of 5000 kind; risk_state = sample_risk }

abbrev inputs : List (SlowInput Decimal)
inputs = meets (tick trade) ∷ meets heartbeat ∷ meets (tick trade) ∷ []

slow_loop-never_promotes_example :
    IsIdle (run_slow no_risk decimal_float.as_u32 slow_config (new_slow_loop slow_config) inputs)
slow_loop-never_promotes_example =
    slow_loop-never_promotes no_risk decimal_float.as_u32 slow_config inputs
