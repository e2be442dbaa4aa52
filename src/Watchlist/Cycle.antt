-- ===== src/Watchlist/Cycle.antt =====
-- A lifecycle cycle moves each symbol by one tier at most: rust/crates/watchlist_engine/src/lib.rs.
use ibkr_bot.Base.{
  ℕ, nat_eq, Bool, true, false, not, ◌&&◌, Option, some, none, ◌++◌, ◌+◌, ◌≡◌, ◌∙◌, if◌then◌else◌,
  arith, refl, sym, inl, inr, Option-cases, contains,
}
use ibkr_bot.Base.Map.{lookup, contains_key, contains_key-map_values}
use ibkr_bot.Base.Float.{Float}
use ibkr_bot.Core.Types.{SymbolId, Tier, a, b, c}
use ibkr_bot.Metrics.{MetricsCollector}
use ibkr_bot.Watchlist.Tiers.{TierData, Watchlist, get_tier, get_data}
use ibkr_bot.Watchlist.Lifecycle.{
  age_all, select, check_demotion, check_eviction, demote_all, process_lifecycle,
}
use ibkr_bot.Watchlist.Valid.{IsValid, ApartAt}
use ibkr_bot.Watchlist.Changes.{age_all-IsValid}
use ibkr_bot.Watchlist.Descent.{
  lower_by, tier_in, passes, one_if, get_tier_lem, get_tier-demote_all, get_tier-evict_all,
  occurrences-append, occurrences-select, contains-select,
}

-- The tier after a cycle, of a symbol that is due for demotion or for eviction.
abbrev pub next_tier : Bool → Bool → Option Tier → Option Tier
next_tier falls leaves none = none
next_tier falls leaves (some a) = if falls then some b else some a
next_tier falls leaves (some b) = if falls then some c else some b
next_tier falls leaves (some c) = if leaves then none else some c

-- Eviction reaches Tier C only.
abbrev leave : Bool → Option Tier → Option Tier
leave true (some c) = none
leave _ t = t

tier_in-leave : (x y z e : Bool) → tier_in x y (z && not e) ≡ leave e (tier_in x y z)
tier_in-leave true y z e = ground arith
tier_in-leave false true z e = ground arith
tier_in-leave false false z e = ground arith

module _ {F : Type 0} where
  get_tier-age_all : (w : Watchlist F) (j : SymbolId) → get_tier (age_all w) j ≡ get_tier w j
  unfolding age_all get_tier
  get_tier-age_all w j = rw (
    contains_key-map_values j _ w.tier_a,
    contains_key-map_values j _ w.tier_b,
    contains_key-map_values j _ w.tier_c,
  )

  -- The three tables together decide.
  fate :
      (w : Watchlist F) (j : SymbolId) (falls leaves : TierData F → Bool)
      → ApartAt w j
      → leave (passes leaves (lookup j w.tier_c)) (
          lower_by
            (one_if (passes falls (lookup j w.tier_a)) + one_if (passes falls (lookup j w.tier_b)))
            (get_tier w j))
        ≡ next_tier (passes falls (get_data w j)) (passes leaves (get_data w j)) (get_tier w j)
  unfolding get_tier get_data
  fate w j falls leaves apart = elim (Option-cases (lookup j w.tier_a)) [
    | inr (d, in_a) ↦
        let not_b : lookup j w.tier_b ≡ none = ground arith in
        let not_c : lookup j w.tier_c ≡ none = ground arith in
        rw (in_a, not_b, not_c) (ground arith)
    | inl not_a ↦ elim (Option-cases (lookup j w.tier_b)) [
      | inr (d, in_b) ↦
          let not_c : lookup j w.tier_c ≡ none = ground arith in
          rw (not_a, in_b, not_c) (ground arith)
      | inl not_b ↦ elim (Option-cases (lookup j w.tier_c)) [
        | inr (d, in_c) ↦ rw (not_a, not_b, in_c) (ground arith)
        | inl not_c ↦ rw (not_a, not_b, not_c) refl
      ]
    ]
  ]

module _ {F : Type 0} ⦃f : Float F⦄ where
  -- A cycle on a valid watchlist moves each symbol of A or B that is due for demotion one tier
  -- down, takes each symbol of C that is due for eviction off the list, and leaves every other
  -- symbol where it is. What is due is decided by the entry as it stands with the cycle counted.
  pub get_tier-process_lifecycle :
      (w : Watchlist F) (demotion eviction : ℕ) (quality : F) (volume : ℕ) (m : MetricsCollector)
      (j : SymbolId)
      → IsValid w
      → let it = get_data (age_all w) j in
        get_tier (process_lifecycle w demotion eviction quality volume m).0 j
        ≡ next_tier
            (passes (check_demotion quality volume demotion) it)
            (passes (check_eviction eviction) it)
            (get_tier w j)
  unfolding process_lifecycle
  get_tier-process_lifecycle w demotion eviction quality volume m j v =
      let old = age_all w in
      let vo = age_all-IsValid w v in
      let falls = check_demotion quality volume demotion in
      let leaves = check_eviction eviction in
      let ids = select falls old.tier_a ++ select falls old.tier_b in
      let gone = select leaves old.tier_c in
      let demoted = demote_all ids old m in
      let at = demoted.0 in
      get_tier-evict_all eviction gone at demoted.1 j
      ∙ tier_in-leave (contains_key j at.tier_a) (contains_key j at.tier_b)
          (contains_key j at.tier_c) (contains gone j)
      ∙ rw
          (
            sym (get_tier_lem at j),
            get_tier-demote_all ids old m j vo,
            contains-select leaves old.tier_c j vo.distinct_c,
            occurrences-append j (select falls old.tier_a) (select falls old.tier_b),
            occurrences-select falls old.tier_a j vo.distinct_a,
            occurrences-select falls old.tier_b j vo.distinct_b,
            sym (get_tier-age_all w j),
          )
          (fate old j falls leaves (vo.apart j))
