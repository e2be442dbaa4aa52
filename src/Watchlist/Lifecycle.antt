-- ===== src/Watchlist/Lifecycle.antt =====
-- `process_lifecycle` of rust/crates/watchlist_engine/src/lib.rs.
use ibkr_bot.Base.{
  ℕ, nat_eq, Bool, Option, some, none, List, [], ◌∷◌, ◌++◌, ◌+◌, ◌-◌, ◌||◌, if◌then◌else◌, ltb, leb,
  length,
}
use ibkr_bot.Base.Map.{Map, insert, remove, map_values, retain_map}
use ibkr_bot.Base.Result.{is_ok}
use ibkr_bot.Base.Float.{Float}
use ibkr_bot.Base.Int.{add_u32, add_u64}
use ibkr_bot.Core.Types.{SymbolId}
use ibkr_bot.Metrics.{MetricsCollector}
use ibkr_bot.Watchlist.Tiers.{TierData, Watchlist, max_tier_a, max_tier_b, max_tier_c}
use ibkr_bot.Watchlist.Moves.{demote, count_evicted}

-- The cooldown of a symbol, and whether it stays in the table.
abbrev pub cool_down : ℕ → Option ℕ
cool_down cycles = if ltb 0 (cycles - 1) then some (cycles - 1) else none

abbrev pub count_demoted : MetricsCollector → MetricsCollector
count_demoted m = record m { symbols_demoted = add_u64 m.symbols_demoted 1 }

-- The ids of the entries that a test selects.
unfoldable pub select : {V : Type 0} → (V → Bool) → Map SymbolId V → List SymbolId
select test [] = []
select test ((id, v) ∷ rest) = if test v then id ∷ select test rest else select test rest

module _ {F : Type 0} where
  unfoldable pub age : TierData F → TierData F
  age entry = record entry { inactive_cycles = add_u32 entry.inactive_cycles 1 }

  unfoldable pub check_demotion : ⦃f : Float F⦄ → F → ℕ → ℕ → TierData F → Bool
  check_demotion ⦃f⦄ min_quality_score min_volume demotion_cycles d =
      f.lt d.quality_score min_quality_score
      || ltb d.volume min_volume
      || leb demotion_cycles d.inactive_cycles

  unfoldable pub check_eviction : ℕ → TierData F → Bool
  check_eviction eviction_cycles d = leb eviction_cycles d.inactive_cycles

  unfoldable pub demote_all :
      List SymbolId → Watchlist F → MetricsCollector → Watchlist F × MetricsCollector
  unfolding demote
  demote_all [] w m = (w, m)
  demote_all (id ∷ ids) w m =
      let moved = demote w id in
      demote_all ids moved.1 (if is_ok moved.0 then count_demoted m else m)

  unfoldable pub evict_all :
      ℕ → List SymbolId → Watchlist F → MetricsCollector → Watchlist F × MetricsCollector
  evict_all cycles [] w m = (w, m)
  evict_all cycles (id ∷ ids) w m =
      evict_all cycles ids
        (record w {
          tier_c = remove id w.tier_c;
          recently_evicted = insert id cycles w.recently_evicted;
        })
        (count_evicted m)

  -- The first two loops: every symbol is a cycle older, and so is every cooldown.
  unfoldable pub age_all : Watchlist F → Watchlist F
  unfolding map_values age retain_map
  age_all w = record w {
    tier_a = map_values (λ _ d. age d) w.tier_a;
    tier_b = map_values (λ _ d. age d) w.tier_b;
    tier_c = map_values (λ _ d. age d) w.tier_c;
    recently_evicted = retain_map cool_down w.recently_evicted;
  }

  unfoldable pub process_lifecycle :
      ⦃f : Float F⦄
      → Watchlist F
      → ℕ
      → ℕ
      → F
      → ℕ
      → MetricsCollector
      → Watchlist F × MetricsCollector
  unfolding age_all select check_demotion check_eviction demote_all evict_all
  process_lifecycle w demotion_cycles eviction_cycles min_quality_score min_volume metrics =
      let old = age_all w in
      let falls = check_demotion min_quality_score min_volume demotion_cycles in
      let to_demote = select falls old.tier_a ++ select falls old.tier_b in
      let to_evict = select (check_eviction eviction_cycles) old.tier_c in
      let demoted = demote_all to_demote old metrics in
      let done = evict_all eviction_cycles to_evict demoted.0 demoted.1 in
      let left = done.0 in
      (
        left,
        record done.1 {
          cold_symbol_count = length left.tier_c;
          current_count = length left.tier_c + length left.tier_b + length left.tier_a;
          budget = max_tier_a + max_tier_b + max_tier_c;
        },
      )
