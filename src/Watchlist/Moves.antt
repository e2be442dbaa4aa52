-- ===== src/Watchlist/Moves.antt =====
-- `add_candidate`, `promote` and `demote` of rust/crates/watchlist_engine/src/lib.rs.
use ibkr_bot.Base.{ℕ, String, nat_eq, Option, some, none, [], ◌∷◌, if◌then◌else◌, ltb, leb, length}
use ibkr_bot.Base.Map.{Map, lookup, insert, remove, contains_key, is_some}
use ibkr_bot.Base.Result.{Result, ok, err}
use ibkr_bot.Base.Float.{Float}
use ibkr_bot.Base.Int.{add_u64}
use ibkr_bot.Core.Types.{SymbolId, Tier, a, b, c, SubscriptionStatus, pending}
use ibkr_bot.Metrics.{MetricsCollector}
use ibkr_bot.Watchlist.Tiers.{
  TierData, Watchlist, new_data, get_tier, total_subscriptions, tick_ready_threshold, max_tier_a,
  max_tier_b, max_tier_c, max_total_subscriptions,
}

-- What a method returns beside the watchlist.
abbrev pub Outcome : Type 0
Outcome = Result String (Unit {0})

abbrev pub count_evicted : MetricsCollector → MetricsCollector
count_evicted m = record m { symbols_evicted = add_u64 m.symbols_evicted 1 }

abbrev pub count_promoted : MetricsCollector → MetricsCollector
count_promoted m = record m { symbols_promoted = add_u64 m.symbols_promoted 1 }

-- `if res.is_ok() { m.symbols_promoted += 1 }`, where there is a collector.
abbrev pub count_if_ok : Outcome → Option MetricsCollector → Option MetricsCollector
count_if_ok (ok _) (some m) = some (count_promoted m)
count_if_ok (ok _) none = none
count_if_ok (err _) metrics = metrics

module _ {F : Type 0} where
  -- The loop that finds the symbol of Tier C that was active the longest ago.
  unfoldable pub oldest_from :
      Map SymbolId (TierData F) → Option (SymbolId × ℕ) → Option (SymbolId × ℕ)
  oldest_from [] oldest = oldest
  oldest_from ((id, entry) ∷ rest) none = oldest_from rest (some (id, entry.last_activity))
  oldest_from ((id, entry) ∷ rest) (some (o, since)) =
      oldest_from rest
        (if ltb entry.last_activity since then some (id, entry.last_activity) else some (o, since))

  unfoldable pub add_candidate :
      ⦃f : Float F⦄
      → Watchlist F
      → SymbolId
      → ℕ
      → MetricsCollector
      → Outcome × Watchlist F × MetricsCollector
  unfolding get_tier oldest_from
  add_candidate w id eviction_cycles metrics =
      if contains_key id w.recently_evicted
      then (err "Recently evicted, cannot re-promote yet", w, metrics)
      else if is_some (get_tier w id)
      then (err "Already in watchlist", w, metrics)
      else if leb max_tier_c (length w.tier_c)
      then (elim (oldest_from w.tier_c none) [
        | none ↦ (err "Tier C full and no cold symbols to evict", w, metrics)
        | some (oldest_id, since) ↦ (
          ok tt,
          record w {
            tier_c = insert id (new_data c) (remove oldest_id w.tier_c);
            recently_evicted = insert oldest_id eviction_cycles w.recently_evicted;
          },
          count_evicted metrics,
        )
      ])
      else (ok tt, record w { tier_c = insert id (new_data c) w.tier_c }, metrics)

  -- The part of C → B behind the two limits.
  unfoldable pub promote_from_c :
      Watchlist F → SymbolId → Option (TierData F) → Outcome × Watchlist F
  promote_from_c w id none = (err "Data missing in Tier C", w)
  promote_from_c w id (some entry) =
      if ltb entry.tick_count tick_ready_threshold
      then (err "Not TickReady", record w { tier_c = insert id entry (remove id w.tier_c) })
      else (
        ok tt,
        record w {
          tier_c = remove id w.tier_c;
          tier_b = insert id (record entry { tier = b; subscription_status = pending }) w.tier_b;
        },
      )

  -- The part of B → A behind the limit.
  unfoldable pub promote_from_b :
      Watchlist F → SymbolId → Option (TierData F) → Outcome × Watchlist F
  promote_from_b w id none = (err "Data missing in Tier B", w)
  promote_from_b w id (some entry) =
      if ltb entry.tick_count tick_ready_threshold
      then (
        err "Not TickReady for Tier A",
        record w { tier_b = insert id entry (remove id w.tier_b) },
      )
      else (
        ok tt,
        record w {
          tier_b = remove id w.tier_b;
          tier_a = insert id (record entry { tier = a }) w.tier_a;
        },
      )

  -- The `match current_tier` of `promote`.
  unfoldable pub promote_from : Watchlist F → SymbolId → Option Tier → Outcome × Watchlist F
  unfolding promote_from_b promote_from_c
  promote_from w id none = (err "Symbol not in watchlist", w)
  promote_from w id (some c) =
      if leb max_tier_b (length w.tier_b)
      then (err "Tier B full", w)
      else if leb max_total_subscriptions (total_subscriptions w)
      then (err "Max subscriptions reached", w)
      else promote_from_c w id (lookup id w.tier_c)
  promote_from w id (some b) =
      if leb max_tier_a (length w.tier_a)
      then (err "Tier A full", w)
      else promote_from_b w id (lookup id w.tier_b)
  promote_from w id (some a) = (err "Already in Tier A", w)

  unfoldable pub promote :
      Watchlist F
      → SymbolId
      → Option MetricsCollector
      → Outcome × Watchlist F × Option MetricsCollector
  unfolding promote_from get_tier
  promote w id metrics =
      let moved = promote_from w id (get_tier w id) in
      (moved.0, moved.1, count_if_ok moved.0 metrics)

  -- The `match current_tier` of `demote`, with the data that the tier has.
  unfoldable pub demote_from : Watchlist F → SymbolId → Option Tier → Outcome × Watchlist F
  demote_from w id none = (err "Symbol not in watchlist", w)
  demote_from w id (some a) = elim (lookup id w.tier_a) [
    | none ↦ (err "Data missing in Tier A", w)
    | some entry ↦ (
      ok tt,
      record w {
        tier_a = remove id w.tier_a;
        tier_b = insert id (record entry { tier = b }) w.tier_b;
      },
    )
  ]
  demote_from w id (some b) = elim (lookup id w.tier_b) [
    | none ↦ (err "Data missing in Tier B", w)
    | some entry ↦ (
      ok tt,
      record w {
        tier_b = remove id w.tier_b;
        tier_c =
            insert id (record entry { tier = c; subscription_status = SubscriptionStatus.none })
              w.tier_c;
      },
    )
  ]
  demote_from w id (some c) = (ok tt, record w { tier_c = remove id w.tier_c })

  unfoldable pub demote : Watchlist F → SymbolId → Outcome × Watchlist F
  unfolding demote_from get_tier
  demote w id = demote_from w id (get_tier w id)
