-- ===== src/Risk/Tests.antt =====
-- Runs of the risk checks at concrete inputs, after the unit tests of rust/crates/risk_engine/src, and
-- the theorems at such inputs.
use ibkr_bot.Base.{
  ℕ, string_eq, nat_eq, pair_eq, true, false, some, none, List, [], ◌∷◌, ◌+◌, ◌*◌, ◌%◌, ◌≡◌, ◌↔◌,
  ◌⊎◌, refl, arith, leb, length, retain, All, contains, if◌then◌else◌,
}
use ibkr_bot.Base.Map.{lookup, insert}
use ibkr_bot.Base.Result.{ok, err}
use ibkr_bot.Base.Int.{◌+ℤ◌, ◌-ℤ◌, ◌*ℤ◌}
use ibkr_bot.Base.Float.{Decimal, num, nan, decimal_float}
use ibkr_bot.Core.Types.{
  SymbolId, RejectReason, LiquidityConfig, block, guard_spread, corporate_action_block,
}
use ibkr_bot.Risk.Pdt.{
  new_pdt_guard, record_all, would_violate, in_window, would_violate-record_all,
}
use ibkr_bot.Risk.Session.{SessionGuard}
use ibkr_bot.Risk.Exposure.{ExposureValidator, LetsIn, check_new_position}
use ibkr_bot.Risk.Limits.{check_new_position-eq-ok_iff}
use ibkr_bot.Risk.Guards.{
  GuardEvaluator, Quote, new_guard_evaluator, default_config, check_execution, state_of,
  standing_block, failed_guard,
}
use ibkr_bot.Risk.Latch.{tracks, checks, answers, failed_guard_latches}
use ibkr_bot.Risk.Blocklist.{
  Blocklist, World, missing, parsed, new_blocklist, register_symbol, auto_block, load, is_blocked,
  reload_if_needed, rebuild_id_set, load_file,
}
use ibkr_bot.Risk.Reload.{auto_block_until_load}
use ibkr_bot.Risk.State.{
  RiskState, new_risk_state, check_entry, should_terminate, set_corporate_action, unblock_symbol,
}
use ibkr_bot.Risk.History.{updates_pnl, sets_action, unblocks, run, step}
use ibkr_bot.Risk.Ratchet.{stops_at, stops_at-run}
use ibkr_bot.Risk.Blocks.{check_entry-blocked}
use ibkr_bot.Risk.Entry.{check_entry-eq-ok_iff}

would_violate-record_all_example :
    would_violate (record_all (new_pdt_guard 3) ((96, 1) ∷ (97, 2) ∷ (98, 3) ∷ [])) 100
    ≡ leb 3 (length (retain (in_window 100) ((96, 1) ∷ (97, 2) ∷ (98, 3) ∷ [])))
would_violate-record_all_example =
    would_violate-record_all 3 ((96, 1) ∷ (97, 2) ∷ (98, 3) ∷ []) 100
      (omega arith, (omega arith, (omega arith, tt)))

-- A time zone five hours behind.
abbrev five_behind : ℕ → ℕ
five_behind seconds = (seconds + 19 * 3600) % 86400

abbrev day_guard : SessionGuard
day_guard = record { pre_after_enabled = false }

abbrev two_sectors : ExposureValidator Decimal
two_sectors = record {
  correlation_matrix = ((1, 2), decimal_float.lit 3 1) ∷ [];
  sector_map = (1, "Technology") ∷ (2, "Energy") ∷ [];
}

abbrev one_open : List SymbolId
one_open = 1 ∷ []

half-le-one : decimal_float.le (decimal_float.lit 5 1) (decimal_float.lit 1 0) ≡ true
unfolding decimal_float ◌+ℤ◌
half-le-one = refl

check_new_position-eq-ok_iff_example :
    (check_new_position two_sectors 2 one_open ≡ ok tt)
    ↔ ((one_open ≡ []) ⊎ ((e : SymbolId) × (one_open ≡ e ∷ []) × LetsIn two_sectors 2 e))
check_new_position-eq-ok_iff_example =
    check_new_position-eq-ok_iff two_sectors 2 one_open half-le-one

abbrev guards : GuardEvaluator Decimal
guards = new_guard_evaluator default_config

-- A spread of six cents, and one of four.
abbrev wide : Quote Decimal
wide = record {
  data_timestamp_ms = 1000;
  bid = decimal_float.lit 1000 2;
  ask = decimal_float.lit 1006 2;
  bid_size = 500;
  ask_size = 500;
  last_trade_price = decimal_float.lit 1003 2;
}

abbrev narrow : Quote Decimal
narrow = record wide { ask = decimal_float.lit 1004 2; last_trade_price = decimal_float.lit 1002 2 }

guards_free : standing_block (state_of guards 1) 1000 ≡ none
unfolding standing_block state_of lookup
guards_free = refl

wide_fails : failed_guard guards.config 1000 wide ≡ some guard_spread
unfolding failed_guard decimal_float ◌+ℤ◌ ◌-ℤ◌ ◌*ℤ◌
wide_fails = refl

failed_guard_latches_example :
    ((check_execution guards 1 1000 wide).0 ≡ err guard_spread)
    × All
        (λ v. v ≡ err guard_spread)
        (answers 1
          (check_execution guards 1 1000 wide).1
          (checks 1 1100 narrow ∷ tracks 1 1200 ∷ []))
failed_guard_latches_example =
    failed_guard_latches guards 1 1000 wide guard_spread (checks 1 1100 narrow ∷ tracks 1 1200 ∷ [])
      guards_free wide_fails (λ _. omega arith, (λ _. omega arith, tt))

reverses :
    (a b p : Decimal)
    → decimal_float.lt a b ≡ true
    → decimal_float.le p (decimal_float.negate b) ≡ true
    → decimal_float.le p (decimal_float.negate a) ≡ true
unfolding decimal_float
reverses (num a) (num b) (num p) h k = ground arith
reverses nan b p h k = cc
reverses (num a) nan p h k = cc
reverses (num a) (num b) nan h k = cc

abbrev quiet_world : World
quiet_world = record { now = 100; today = "2026-03-10"; at_most = λ _ _. false; file = missing }

abbrev limits : LiquidityConfig Decimal
limits = record {
  target_price_min = decimal_float.lit 1 0;
  target_price_max = decimal_float.lit 20 0;
  max_spread_pct = decimal_float.lit 1 0;
  min_avg_daily_volume = 500000;
  min_addv_usd = decimal_float.lit 1000000 0;
}

abbrev risk : RiskState Decimal
risk = new_risk_state quiet_world (decimal_float.lit 100 0) limits

abbrev loss : Decimal
loss = decimal_float.negate (decimal_float.lit 100 0)

loss_stops : stops_at risk loss ≡ true
unfolding should_terminate decimal_float
loss_stops = refl

stops_at-run_example : stops_at (run risk (updates_pnl (decimal_float.lit 60 0) ∷ [])) loss ≡ true
stops_at-run_example =
    stops_at-run reverses risk (updates_pnl (decimal_float.lit 60 0) ∷ []) loss loss_stops

block_set :
    lookup 1 (run risk (sets_action 1 block ∷ unblocks 1 ∷ [])).corporate_actions ≡ some block
unfolding run step set_corporate_action unblock_symbol lookup insert
block_set = refl

check_entry-blocked_example :
    (check_entry quiet_world (run risk (sets_action 1 block ∷ unblocks 1 ∷ [])) 1 [] 100).0
    ≡ err (
        if (run risk (sets_action 1 block ∷ unblocks 1 ∷ [])).monitor_only
        then RejectReason.monitor_only
        else corporate_action_block)
check_entry-blocked_example =
    check_entry-blocked quiet_world quiet_world (decimal_float.lit 100 0) limits
      (sets_action 1 block ∷ unblocks 1 ∷ []) 1 [] 100 block_set

check_entry-eq-ok_iff_example : ((check_entry quiet_world risk 1 [] 100).0 ≡ ok tt) ↔ (
    (risk.monitor_only ≡ false)
    × (contains risk.blocklist 1 ≡ false)
    × (is_blocked (reload_if_needed quiet_world risk.blocklist_loader) 1 ≡ false)
    × (should_terminate risk ≡ false)
    × (would_violate risk.pdt_guard 100 ≡ false)
    × (check_new_position risk.exposure_validator 1 [] ≡ ok tt))
check_entry-eq-ok_iff_example = check_entry-eq-ok_iff quiet_world risk 1 [] 100

abbrev registered : Blocklist
registered = register_symbol (new_blocklist quiet_world 60) "XYZ" 10

abbrev file_without : World
file_without = record quiet_world { now = 200; file = parsed [] }

xyz_known : lookup "XYZ" registered.ticker_to_id ≡ some 10
unfolding register_symbol rebuild_id_set new_blocklist reload_if_needed load load_file lookup insert
xyz_known = refl

auto_block_until_load_example :
    (is_blocked (auto_block quiet_world registered "XYZ" "Delisting") 10 ≡ true)
    × (lookup "XYZ"
          (load file_without (auto_block quiet_world registered "XYZ" "Delisting")).entries
        ≡ none)
auto_block_until_load_example =
    auto_block_until_load quiet_world file_without registered "XYZ" "Delisting" 10 [] xyz_known refl
      tt
