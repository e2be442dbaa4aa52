-- ===== src/Watchlist/Descent.antt =====
-- Where `demote` and `process_lifecycle` leave each symbol: rust/crates/watchlist_engine/src/lib.rs.
use ibkr_bot.Base.{
  ℕ, zero, suc, nat_eq, Bool, false, Option, some, none, List, [], ◌∷◌, ◌++◌, ◌+◌, ◌≡◌, ◌==◌,
  if◌then◌else◌, arith, refl, ◌∙◌, inl, inr, Option-cases, ◌&&◌, not, contains,
}
use ibkr_bot.Base.Map.{Map, lookup, contains_key, contains_key-insert, contains_key-remove}
use ibkr_bot.Base.Keys.{Distinct}
use ibkr_bot.Core.Types.{SymbolId, Tier, a, b, c, SubscriptionStatus}
use ibkr_bot.Metrics.{MetricsCollector}
use ibkr_bot.Watchlist.Tiers.{Watchlist, get_tier}
use ibkr_bot.Watchlist.Moves.{demote, demote_from}
use ibkr_bot.Watchlist.Lifecycle.{select, demote_all, evict_all}
use ibkr_bot.Watchlist.Valid.{IsValid, ApartAt}
use ibkr_bot.Watchlist.Steps.{demote-IsValid}

-- The tier below.
abbrev pub lower : Option Tier → Option Tier
lower none = none
lower (some a) = some b
lower (some b) = some c
lower (some c) = none

abbrev pub lower_by : ℕ → Option Tier → Option Tier
lower_by zero t = t
lower_by (suc n) t = lower_by n (lower t)

abbrev pub occurrences : SymbolId → List SymbolId → ℕ
occurrences j [] = 0
occurrences j (i ∷ is) = if i == j then suc (occurrences j is) else occurrences j is

pub occurrences-append :
    (j : SymbolId) (is ks : List SymbolId)
    → occurrences j (is ++ ks) ≡ occurrences j is + occurrences j ks
occurrences-append j [] ks = omega arith
occurrences-append j (i ∷ is) ks = ground (arith, occurrences-append j is ks)

-- `get_tier`, from whether the symbol is in each table.
abbrev pub tier_in : Bool → Bool → Bool → Option Tier
tier_in x y z = if x then some a else if y then some b else if z then some c else none

module _ {F : Type 0} where
  pub get_tier_lem :
      (w : Watchlist F) (j : SymbolId)
      → get_tier w j
        ≡ tier_in (contains_key j w.tier_a) (contains_key j w.tier_b) (contains_key j w.tier_c)
  unfolding get_tier
  get_tier_lem w j = refl

  get_tier-demote_from :
      (w : Watchlist F) (id j : SymbolId)
      → ApartAt w id
      → get_tier (demote_from w id (get_tier w id)).1 j
        ≡ (if id == j then lower (get_tier w id) else get_tier w j)
  unfolding demote_from get_tier
  get_tier-demote_from w id j apart = elim (Option-cases (lookup id w.tier_a)) [
    | inr (d, e) ↦
        rw (e, demote_from, e)
          (rw
            (
              contains_key-insert id j (record d { tier = b }) w.tier_b,
              contains_key-remove id j w.tier_a,
            )
            (ground arith))
    | inl not_a ↦ elim (Option-cases (lookup id w.tier_b)) [
      | inr (d, e) ↦
          rw (not_a, e, demote_from, e)
            (rw
              (
                contains_key-insert id j
                    (record d { tier = c; subscription_status = SubscriptionStatus.none }) w.tier_c,
                contains_key-remove id j w.tier_b,
              )
              (ground arith))
      | inl not_b ↦ elim (Option-cases (lookup id w.tier_c)) [
        | inr (d, e) ↦
            rw (not_a, not_b, e, demote_from, contains_key-remove id j w.tier_c) (ground arith)
        | inl not_c ↦ rw (not_a, not_b, not_c, demote_from) (ground arith)
      ]
    ]
  ]

  pub get_tier-demote :
      (w : Watchlist F) (id j : SymbolId)
      → IsValid w
      → get_tier (demote w id).1 j ≡ (if id == j then lower (get_tier w id) else get_tier w j)
  unfolding demote
  get_tier-demote w id j v = get_tier-demote_from w id j (v.apart id)

  pub get_tier-demote_all :
      (ids : List SymbolId) (w : Watchlist F) (m : MetricsCollector) (j : SymbolId)
      → IsValid w
      → get_tier (demote_all ids w m).0 j ≡ lower_by (occurrences j ids) (get_tier w j)
  unfolding demote_all
  get_tier-demote_all [] w m j v = refl
  get_tier-demote_all (id ∷ ids) w m j v =
      let next = demote w id in
      get_tier-demote_all ids next.1 _ j (demote-IsValid w id v)
      ∙ rw (get_tier-demote w id j v) (ground arith)

-- The place of a symbol in a table, and whether it passes the test there.
abbrev pub passes : {V : Type 0} → (V → Bool) → Option V → Bool
passes test none = false
passes test (some v) = test v

abbrev pub one_if : Bool → ℕ
one_if x = if x then 1 else 0

pub occurrences-select :
    {V : Type 0} (test : V → Bool) (m : Map SymbolId V) (j : SymbolId)
    → Distinct m
    → occurrences j (select test m) ≡ one_if (passes test (lookup j m))
unfolding select lookup
occurrences-select test [] j _ = refl
occurrences-select test ((i, v) ∷ m) j (fresh, ds) =
    ground (arith, occurrences-select test m j ds, fresh)

pub contains-select :
    {V : Type 0} (test : V → Bool) (m : Map SymbolId V) (j : SymbolId)
    → Distinct m
    → contains (select test m) j ≡ passes test (lookup j m)
unfolding select lookup
contains-select test [] j _ = refl
contains-select test ((i, v) ∷ m) j (fresh, ds) = ground (arith, contains-select test m j ds, fresh)

module _ {F : Type 0} where
  pub get_tier-evict_all :
      (cooldown : ℕ) (ids : List SymbolId) (w : Watchlist F) (m : MetricsCollector) (j : SymbolId)
      → get_tier (evict_all cooldown ids w m).0 j
        ≡ tier_in
            (contains_key j w.tier_a)
            (contains_key j w.tier_b)
            (contains_key j w.tier_c && not (contains ids j))
  unfolding evict_all get_tier
  get_tier-evict_all cooldown [] w m j = ground arith
  get_tier-evict_all cooldown (id ∷ ids) w m j =
      get_tier-evict_all cooldown ids _ _ j ∙ rw (contains_key-remove id j w.tier_c) (ground arith)
