-- ===== src/Watchlist/Turnover.antt =====
-- When a candidate comes in, and who leaves for it: rust/crates/watchlist_engine/src/lib.rs.
use ibkr_bot.Base.{
  ℕ, nat_eq, true, false, some, none, ◌≤◌, ◌≡◌, ◌↔◌, ◌==◌, ==_refl, leb, length, arith, refl, inl,
  inr, Bool-cases,
}
use ibkr_bot.Base.Map.{
  lookup, insert, remove, contains_key, is_some, contains_key-insert, contains_key-remove,
  lookup-insert, Entries-lookup,
}
use ibkr_bot.Base.Float.{Float}
use ibkr_bot.Base.Result.{ok}
use ibkr_bot.Core.Types.{SymbolId, c}
use ibkr_bot.Metrics.{MetricsCollector}
use ibkr_bot.Watchlist.Tiers.{TierData, Watchlist, new_data, get_tier, max_tier_c}
use ibkr_bot.Watchlist.Moves.{add_candidate}
use ibkr_bot.Watchlist.Oldest.{oldest_from-none}
use ibkr_bot.Watchlist.Steps.{get_tier-none}
use ibkr_bot.Watchlist.Valid.{IsValid}

module _ {F : Type 0} where
  get_tier-out :
      (w : Watchlist F) (id : SymbolId)
      → contains_key id w.tier_a ≡ false
      → contains_key id w.tier_b ≡ false
      → contains_key id w.tier_c ≡ false
      → get_tier w id ≡ none
  unfolding get_tier
  get_tier-out w id not_a not_b not_c = ground arith

  get_tier-c :
      (w : Watchlist F) (id : SymbolId)
      → contains_key id w.tier_a ≡ false
      → contains_key id w.tier_b ≡ false
      → contains_key id w.tier_c ≡ true
      → get_tier w id ≡ some c
  unfolding get_tier
  get_tier-c w id not_a not_b in_c = ground arith

module _ {F : Type 0} ⦃f : Float F⦄ where
  -- A valid watchlist takes a candidate exactly if it is not cooling down and of no tier: where Tier C
  -- is full there is always one to evict.
  pub add_candidate-eq-ok_iff :
      (w : Watchlist F) (id : SymbolId) (cooldown : ℕ) (m : MetricsCollector)
      → IsValid w
      → ((add_candidate w id cooldown m).0 ≡ ok tt)
        ↔ ((contains_key id w.recently_evicted ≡ false) × (get_tier w id ≡ none))
  unfolding add_candidate
  add_candidate-eq-ok_iff w id cooldown m v =
      elim (Bool-cases (contains_key id w.recently_evicted)) [
        | inl t ↦ rw (t, add_candidate) (ground arith)
        | inr cool ↦ elim (Bool-cases (is_some (get_tier w id))) [
          | inl t ↦ rw (cool, t, add_candidate) (ground arith)
          | inr out ↦ elim (Bool-cases (leb max_tier_c (length w.tier_c))) [
            | inl full ↦
                let (o, t, e, low, held) = oldest_from-none w.tier_c v.distinct_c (ground arith) in
                rw (cool, out, full, e, add_candidate) (ground arith)
            | inr room ↦ rw (cool, out, room, add_candidate) (ground arith)
          ]
        ]
      ]

  -- On a valid watchlist whose Tier C is full, a new candidate that is not cooling down takes the
  -- place of the symbol of it whose last activity is the longest ago, and that symbol is of no tier
  -- afterwards and cools down.
  pub add_candidate_evicts :
      (w : Watchlist F) (id : SymbolId) (cooldown : ℕ) (m : MetricsCollector)
      → IsValid w
      → contains_key id w.recently_evicted ≡ false
      → get_tier w id ≡ none
      → max_tier_c ≤ length w.tier_c
      → let done = (add_candidate w id cooldown m).1 in
        (o : SymbolId) × (d : TierData F) × (lookup o w.tier_c ≡ some d)
        × ((j : SymbolId) (e : TierData F)
            → lookup j w.tier_c ≡ some e
            → d.last_activity ≤ e.last_activity)
        × (get_tier done o ≡ none)
        × (lookup o done.recently_evicted ≡ some cooldown)
        × (get_tier done id ≡ some c)
  unfolding add_candidate
  add_candidate_evicts w id cooldown m v cool out full =
      let (o, t, e, low, held) = oldest_from-none w.tier_c v.distinct_c (omega arith) in
      let d = held.0 in
      let kept = remove o w.tier_c in
      let done : Watchlist F = record w {
        tier_c = insert id (new_data c) kept;
        recently_evicted = insert o cooldown w.recently_evicted;
      } in
      let none_out : is_some (get_tier w id) ≡ false = rw out refl in
      let (not_a, not_b, not_c) = get_tier-none w id none_out in
      let is_full : leb max_tier_c (length w.tier_c) ≡ true = ground arith in
      let in_c : contains_key o w.tier_c ≡ true = rw held.1 refl in
      let other : (id == o) ≡ false = ground arith in
      (
        o,
        d,
        held.1,
        λ j e at. ground (arith, Entries-lookup _ j e w.tier_c low at, held.2),
        rw (cool, none_out, is_full, e, add_candidate)
            (get_tier-out done o (ground (arith, v.apart o)) (ground (arith, v.apart o)) (
              rw
                (
                  contains_key-insert id o (new_data c) kept,
                  other,
                  contains_key-remove o o w.tier_c,
                  ==_refl o,
                )
                refl)),
        rw
            (
              cool,
              none_out,
              is_full,
              e,
              add_candidate,
              lookup-insert o o cooldown w.recently_evicted,
              ==_refl o,
            )
            refl,
        rw (cool, none_out, is_full, e, add_candidate)
            (get_tier-c done id not_a not_b
              (rw (contains_key-insert id id (new_data c) kept, ==_refl id) refl)),
      )
