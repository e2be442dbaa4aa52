-- ===== src/Watchlist/Changes.antt =====
-- Calls that change entries and move none: rust/crates/watchlist_engine/src/lib.rs.
use ibkr_bot.Base.{nat_eq, ◌≡◌, refl, arith, inl, inr, Bool-cases, length}
use ibkr_bot.Base.Map.{
  Map, adjust, map_values, contains_key, contains_key-adjust, contains_key-map_values, Entries,
  Entries-adjust, Entries-map_values, length-adjust, length-map_values,
}
use ibkr_bot.Base.Keys.{Distinct, Distinct-adjust, Distinct-map_values}
use ibkr_bot.Core.Types.{SymbolId, Tier, a, b, c}
use ibkr_bot.Watchlist.Tiers.{TierData, Watchlist, change_data}
use ibkr_bot.Watchlist.Lifecycle.{age, age_all}
use ibkr_bot.Watchlist.Valid.{IsValid, Fits}

module _ {F : Type 0} where
  -- A tier's table after such a call: the same symbols, whose entries fit the tier.
  record Alike (t : Tier) (m n : Map SymbolId (TierData F)) : Type 0 where
    same_keys : (id : SymbolId) → contains_key id n ≡ contains_key id m
    fits : Entries (Fits t) n
    distinct : Distinct n
    same_length : length n ≡ length m

  Alike-refl :
      (t : Tier) (m : Map SymbolId (TierData F)) → Entries (Fits t) m → Distinct m → Alike t m m
  Alike-refl t m fit once = record {
    same_keys = λ id. refl;
    fits = fit;
    distinct = once;
    same_length = refl;
  }

  Alike-adjust :
      (t : Tier) (id : SymbolId) (g : TierData F → TierData F) (m : Map SymbolId (TierData F))
      → ((d : TierData F) → Fits t id d → Fits t id (g d))
      → Entries (Fits t) m
      → Distinct m
      → Alike t m (adjust id g m)
  Alike-adjust t id g m keeps fit once = record {
    same_keys = λ j. contains_key-adjust id j g m;
    fits = Entries-adjust (Fits t) id g m keeps fit;
    distinct = Distinct-adjust id g m once;
    same_length = length-adjust id g m;
  }

  Alike-age :
      (t : Tier) (m : Map SymbolId (TierData F))
      → Entries (Fits t) m
      → Distinct m
      → Alike t m (map_values (λ _ d. age d) m)
  unfolding age
  Alike-age t m fit once = record {
    same_keys = λ j. contains_key-map_values j _ m;
    fits = Entries-map_values (Fits t) (Fits t) _ m (λ _ d fits. fits) fit;
    distinct = Distinct-map_values _ m once;
    same_length = length-map_values _ m;
  }

  Alike-IsValid :
      (w n : Watchlist F)
      → Alike a w.tier_a n.tier_a
      → Alike b w.tier_b n.tier_b
      → Alike c w.tier_c n.tier_c
      → IsValid w
      → IsValid n
  Alike-IsValid w n la lb lc v = record {
    apart = λ id. rw (la.same_keys id, lb.same_keys id, lc.same_keys id) (v.apart id);
    fits_a = la.fits;
    fits_b = lb.fits;
    fits_c = lc.fits;
    distinct_a = la.distinct;
    distinct_b = lb.distinct;
    distinct_c = lc.distinct;
    few_a = omega (arith, la.same_length, v.few_a);
    subscribed = omega (arith, la.same_length, lb.same_length, v.subscribed);
    few = omega (arith, la.same_length, lb.same_length, lc.same_length, v.few);
  }

  pub change_data-IsValid :
      (w : Watchlist F) (id : SymbolId) (g : TierData F → TierData F)
      → ((t : Tier) (d : TierData F) → Fits t id d → Fits t id (g d))
      → IsValid w
      → IsValid (change_data w id g)
  unfolding change_data
  change_data-IsValid w id g keeps v =
      let at_a = Alike-refl a w.tier_a v.fits_a v.distinct_a in
      let at_b = Alike-refl b w.tier_b v.fits_b v.distinct_b in
      let at_c = Alike-refl c w.tier_c v.fits_c v.distinct_c in
      elim (Bool-cases (contains_key id w.tier_a)) [
        | inl in_a ↦
            rw (in_a, change_data)
              (Alike-IsValid w _ (Alike-adjust a id g w.tier_a (keeps a) v.fits_a v.distinct_a) at_b
                at_c v)
        | inr not_a ↦ elim (Bool-cases (contains_key id w.tier_b)) [
          | inl in_b ↦
              rw (not_a, in_b, change_data)
                (Alike-IsValid w _ at_a
                  (Alike-adjust b id g w.tier_b (keeps b) v.fits_b v.distinct_b) at_c v)
          | inr not_b ↦
              rw (not_a, not_b, change_data)
                (Alike-IsValid w _ at_a at_b
                  (Alike-adjust c id g w.tier_c (keeps c) v.fits_c v.distinct_c) v)
        ]
      ]

  pub age_all-IsValid : (w : Watchlist F) → IsValid w → IsValid (age_all w)
  unfolding age_all
  age_all-IsValid w v =
      Alike-IsValid w (age_all w) (Alike-age a w.tier_a v.fits_a v.distinct_a)
        (Alike-age b w.tier_b v.fits_b v.distinct_b) (Alike-age c w.tier_c v.fits_c v.distinct_c) v
