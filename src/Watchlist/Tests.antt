-- ===== src/Watchlist/Tests.antt =====
-- Runs of the watchlist at concrete inputs, after the unit tests of
-- rust/crates/watchlist_engine/src/lib.rs, and the theorems at such inputs.
use ibkr_bot.Base.{
  ℕ, zero, suc, nat_eq, false, some, none, List, [], ◌∷◌, ◌++◌, ◌≡◌, ◌≤◌, ◌↔◌, refl, arith, length,
}
use ibkr_bot.Base.Map.{lookup, insert, remove, adjust, contains_key}
use ibkr_bot.Base.Result.{ok}
use ibkr_bot.Base.Float.{Decimal, decimal_float}
use ibkr_bot.Core.Types.{SymbolId, a, c}
use ibkr_bot.Metrics.{MetricsCollector}
use ibkr_bot.Watchlist.Tiers.{
  TierData, Watchlist, new_list, get_tier, get_data, change_data, update_tick_count, max_tier_c,
}
use ibkr_bot.Watchlist.Moves.{
  add_candidate, promote, promote_from, promote_from_b, promote_from_c, demote, demote_from,
}
use ibkr_bot.Watchlist.Lifecycle.{age_all, check_demotion, check_eviction, process_lifecycle}
use ibkr_bot.Watchlist.History.{Call, adds, promotes, ticks, run, step}
use ibkr_bot.Watchlist.Valid.{IsValid}
use ibkr_bot.Watchlist.Steps.{run-new_list-IsValid}
use ibkr_bot.Watchlist.Turnover.{add_candidate-eq-ok_iff, add_candidate_evicts}
use ibkr_bot.Watchlist.Descent.{passes}
use ibkr_bot.Watchlist.Cycle.{next_tier, get_tier-process_lifecycle}

abbrev no_metrics : MetricsCollector
no_metrics = record {
  reject_counts = [];
  total_decisions = 0;
  total_entries = 0;
  api_error_count = 0;
  reconnect_count = 0;
  data_quality_events = 0;
  ibkr_subscription_count = 0;
  sla_breach_count = 0;
  symbols_promoted = 0;
  symbols_demoted = 0;
  symbols_evicted = 0;
  cold_symbol_count = 0;
  current_count = 0;
  budget = 0;
}

abbrev repeat : ℕ → Call Decimal → List (Call Decimal)
repeat zero call = []
repeat (suc n) call = call ∷ repeat n call

abbrev adds_to : ℕ → List (Call Decimal)
adds_to zero = []
adds_to (suc n) = adds n 10 ∷ adds_to n

-- Symbol 1 rises to Tier A.
abbrev rise : List (Call Decimal)
rise = adds 1 10 ∷ adds 2 10 ∷ repeat 50 (ticks 1) ++ promotes 1 ∷ promotes 1 ∷ []

abbrev list_of : List (Call Decimal) → Watchlist Decimal
list_of calls = run no_metrics new_list calls

abbrev risen : Watchlist Decimal
risen = list_of rise

test_promotion_path : get_tier risen 1 ≡ some a
unfolding run step add_candidate promote promote_from promote_from_b promote_from_c
    update_tick_count change_data get_tier lookup insert remove adjust
test_promotion_path = refl

test_demotion_path : get_tier (demote (demote risen 1).1 1).1 1 ≡ some c
unfolding run step add_candidate promote promote_from promote_from_b promote_from_c
    update_tick_count change_data get_tier lookup insert remove adjust demote demote_from
test_demotion_path = refl

run-new_list-IsValid_example : IsValid risen
run-new_list-IsValid_example = run-new_list-IsValid no_metrics rise

add_candidate-eq-ok_iff_example :
    ((add_candidate risen 3 10 no_metrics).0 ≡ ok tt)
    ↔ ((contains_key 3 risen.recently_evicted ≡ false) × (get_tier risen 3 ≡ none))
add_candidate-eq-ok_iff_example =
    add_candidate-eq-ok_iff risen 3 10 no_metrics (run-new_list-IsValid no_metrics rise)

-- Tier C with 200 symbols.
abbrev filled : Watchlist Decimal
filled = list_of (adds_to 200)

filled_cooling : contains_key 300 filled.recently_evicted ≡ false
unfolding run step add_candidate get_tier lookup insert
filled_cooling = refl

filled_without : get_tier filled 300 ≡ none
unfolding run step add_candidate get_tier lookup insert
filled_without = refl

filled_length : max_tier_c ≤ length filled.tier_c
unfolding run step add_candidate get_tier lookup insert
filled_length = omega arith

add_candidate_evicts_example :
    let done = (add_candidate filled 300 10 no_metrics).1 in
    (o : SymbolId) × (d : TierData Decimal) × (lookup o filled.tier_c ≡ some d)
    × ((j : SymbolId) (e : TierData Decimal)
        → lookup j filled.tier_c ≡ some e
        → d.last_activity ≤ e.last_activity)
    × (get_tier done o ≡ none)
    × (lookup o done.recently_evicted ≡ some 10)
    × (get_tier done 300 ≡ some c)
add_candidate_evicts_example =
    add_candidate_evicts filled 300 10 no_metrics (run-new_list-IsValid no_metrics (adds_to 200))
      filled_cooling filled_without filled_length

get_tier-process_lifecycle_example :
    let it = get_data (age_all risen) 1 in
    get_tier (process_lifecycle risen 3 5 (decimal_float.lit 5 1) 1000 no_metrics).0 1
    ≡ next_tier
        (passes (check_demotion (decimal_float.lit 5 1) 1000 3) it)
        (passes (check_eviction 5) it)
        (get_tier risen 1)
get_tier-process_lifecycle_example =
    get_tier-process_lifecycle risen 3 5 (decimal_float.lit 5 1) 1000 no_metrics 1
      (run-new_list-IsValid no_metrics rise)
