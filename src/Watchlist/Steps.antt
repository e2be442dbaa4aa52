-- ===== src/Watchlist/Steps.antt =====
-- Every call keeps a watchlist valid: rust/crates/watchlist_engine/src/lib.rs.
use ibkr_bot.Base.{
  ℕ, nat_eq, false, Option, some, none, List, [], ◌∷◌, ◌++◌, ◌<◌, ◌≡◌, leb, ltb, length, arith,
  refl, inl, inr, Bool-cases, Option-cases,
}
use ibkr_bot.Base.Map.{
  lookup, insert, remove, contains_key, is_some, Entries-lookup, length-remove-lt,
}
use ibkr_bot.Base.Float.{Float}
use ibkr_bot.Core.Types.{SymbolId, Tier, a, b, c, SubscriptionStatus, pending}
use ibkr_bot.Metrics.{MetricsCollector}
use ibkr_bot.Watchlist.Tiers.{
  TierData, Watchlist, new_list, new_data, get_tier, update_regime, update_symbol_context,
  update_tick_count, touch, total_subscriptions, max_tier_a, max_tier_b, max_tier_c,
  max_total_subscriptions, tick_ready_threshold,
}
use ibkr_bot.Watchlist.Moves.{
  add_candidate, promote, promote_from, promote_from_b, promote_from_c, demote, demote_from,
}
use ibkr_bot.Watchlist.Lifecycle.{
  age_all, demote_all, evict_all, process_lifecycle, select, check_demotion, check_eviction,
}
use ibkr_bot.Watchlist.History.{
  Call, adds, promotes, demotes, cycles, ticks, touches, informs, sets_regime, step, run,
}
use ibkr_bot.Watchlist.Oldest.{oldest_from-none}
use ibkr_bot.Watchlist.Changes.{change_data-IsValid, age_all-IsValid}
use ibkr_bot.Watchlist.Valid.{
  IsValid, b_to_a-IsValid, c_to_b-IsValid, a_to_b-IsValid, b_to_c-IsValid, drop_c-IsValid,
  put_c-IsValid, reenter_b-IsValid,
}

module _ {F : Type 0} where
  pub new-IsValid : IsValid (new_list {F = F})
  unfolding lookup
  new-IsValid = record {
    apart = λ id. refl;
    fits_a = tt;
    fits_b = tt;
    fits_c = tt;
    distinct_a = tt;
    distinct_b = tt;
    distinct_c = tt;
    few_a = omega arith;
    subscribed = omega arith;
    few = omega arith;
  }

  demote_from-IsValid :
      (w : Watchlist F) (id : SymbolId) (at : Option Tier)
      → IsValid w
      → IsValid (demote_from w id at).1
  unfolding demote_from
  demote_from-IsValid w id none v = v
  demote_from-IsValid w id (some a) v = elim (Option-cases (lookup id w.tier_a)) [
    | inl e ↦ rw (e, demote_from) v
    | inr (d, e) ↦
        let fits = Entries-lookup _ id d w.tier_a v.fits_a e in
        rw (e, demote_from) (a_to_b-IsValid w id d (record d { tier = b }) e (refl, fits.1) v)
  ]
  demote_from-IsValid w id (some b) v = elim (Option-cases (lookup id w.tier_b)) [
    | inl e ↦ rw (e, demote_from) v
    | inr (d, e) ↦
        rw (e, demote_from)
          (b_to_c-IsValid w id d
            (record d { tier = c; subscription_status = SubscriptionStatus.none }) e (refl, refl) v)
  ]
  demote_from-IsValid w id (some c) v = drop_c-IsValid w id w.recently_evicted v

  pub demote-IsValid : (w : Watchlist F) (id : SymbolId) → IsValid w → IsValid (demote w id).1
  unfolding demote
  demote-IsValid w id v = demote_from-IsValid w id (get_tier w id) v

  promote_from_b-IsValid :
      (w : Watchlist F) (id : SymbolId) (at : Option (TierData F))
      → lookup id w.tier_b ≡ at
      → length w.tier_a < max_tier_a
      → IsValid w
      → IsValid (promote_from_b w id at).1
  unfolding promote_from_b
  promote_from_b-IsValid w id none e room v = v
  promote_from_b-IsValid w id (some d) e room v =
      elim (Bool-cases (ltb d.tick_count tick_ready_threshold)) [
        | inl t ↦ rw (t, promote_from_b) (reenter_b-IsValid w id d e v)
        | inr t ↦
            let fits = Entries-lookup _ id d w.tier_b v.fits_b e in
            rw (t, promote_from_b)
              (b_to_a-IsValid w id d (record d { tier = a }) e (refl, fits.1) room v)
      ]

  promote_from_c-IsValid :
      (w : Watchlist F) (id : SymbolId) (at : Option (TierData F))
      → lookup id w.tier_c ≡ at
      → total_subscriptions w < max_total_subscriptions
      → IsValid w
      → IsValid (promote_from_c w id at).1
  unfolding promote_from_c
  promote_from_c-IsValid w id none e room v = v
  promote_from_c-IsValid w id (some d) e room v =
      elim (Bool-cases (ltb d.tick_count tick_ready_threshold)) [
        | inl t ↦
            let fits = Entries-lookup _ id d w.tier_c v.fits_c e in
            rw (t, promote_from_c)
              (put_c-IsValid (record w { tier_c = remove id w.tier_c }) id d
                (ground (arith, v.apart id, e)) (ground (arith, v.apart id, e)) fits
                (omega (arith, length-remove-lt id d w.tier_c e, v.few))
                (drop_c-IsValid w id w.recently_evicted v))
        | inr t ↦
            rw (t, promote_from_c)
              (c_to_b-IsValid w id d (record d { tier = b; subscription_status = pending }) e
                (refl, refl) room v)
      ]

  promote_from-IsValid :
      (w : Watchlist F) (id : SymbolId) (at : Option Tier)
      → IsValid w
      → IsValid (promote_from w id at).1
  unfolding promote_from
  promote_from-IsValid w id none v = v
  promote_from-IsValid w id (some a) v = v
  promote_from-IsValid w id (some b) v = elim (Bool-cases (leb max_tier_a (length w.tier_a))) [
    | inl full ↦ rw (full, promote_from) v
    | inr room ↦
        rw (room, promote_from)
          (promote_from_b-IsValid w id (lookup id w.tier_b) refl (ground arith) v)
  ]
  promote_from-IsValid w id (some c) v =
      let few_b : leb max_tier_b (length w.tier_b) ≡ false = ground (arith, v.subscribed) in
      elim (Bool-cases (leb max_total_subscriptions (total_subscriptions w))) [
        | inl full ↦ rw (few_b, full, promote_from) v
        | inr room ↦
            rw (few_b, room, promote_from)
              (promote_from_c-IsValid w id (lookup id w.tier_c) refl (ground arith) v)
      ]

  pub promote-IsValid :
      (w : Watchlist F) (id : SymbolId) (m : Option MetricsCollector)
      → IsValid w
      → IsValid (promote w id m).1
  unfolding promote
  promote-IsValid w id m v = promote_from-IsValid w id (get_tier w id) v

  -- Where a symbol is of no tier, which is how a candidate comes in.
  pub get_tier-none :
      (w : Watchlist F) (id : SymbolId)
      → is_some (get_tier w id) ≡ false
      → (contains_key id w.tier_a ≡ false)
        × (contains_key id w.tier_b ≡ false)
        × (contains_key id w.tier_c ≡ false)
  unfolding get_tier
  get_tier-none w id h = ground arith

  pub demote_all-IsValid :
      (ids : List SymbolId) (w : Watchlist F) (m : MetricsCollector)
      → IsValid w
      → IsValid (demote_all ids w m).0
  unfolding demote_all
  demote_all-IsValid [] w m v = v
  demote_all-IsValid (id ∷ ids) w m v = demote_all-IsValid ids _ _ (demote-IsValid w id v)

  evict_all-IsValid :
      (cooldown : ℕ) (ids : List SymbolId) (w : Watchlist F) (m : MetricsCollector)
      → IsValid w
      → IsValid (evict_all cooldown ids w m).0
  unfolding evict_all
  evict_all-IsValid cooldown [] w m v = v
  evict_all-IsValid cooldown (id ∷ ids) w m v =
      evict_all-IsValid cooldown ids _ _ (drop_c-IsValid w id _ v)

module _ {F : Type 0} ⦃f : Float F⦄ where
  add_candidate-IsValid :
      (w : Watchlist F) (id : SymbolId) (cooldown : ℕ) (m : MetricsCollector)
      → IsValid w
      → IsValid (add_candidate w id cooldown m).1
  unfolding add_candidate
  add_candidate-IsValid w id cooldown m v = elim (Bool-cases (contains_key id w.recently_evicted)) [
    | inl t ↦ rw (t, add_candidate) v
    | inr cool ↦ elim (Bool-cases (is_some (get_tier w id))) [
      | inl t ↦ rw (cool, t, add_candidate) v
      | inr out ↦
          let (not_a, not_b, not_c) = get_tier-none w id out in
          elim (Bool-cases (leb max_tier_c (length w.tier_c))) [
            | inl full ↦
                let (o, t, e, low, held) = oldest_from-none w.tier_c v.distinct_c (ground arith) in
                rw (cool, out, full, e, add_candidate)
                  (put_c-IsValid
                    (record w {
                      tier_c = remove o w.tier_c;
                      recently_evicted = insert o cooldown w.recently_evicted;
                    })
                    id (new_data c) not_a not_b (refl, refl)
                    (omega (arith, length-remove-lt o held.0 w.tier_c held.1, v.few))
                    (drop_c-IsValid w o _ v))
            | inr room ↦
                rw (cool, out, room, add_candidate)
                  (put_c-IsValid w id (new_data c) not_a not_b (refl, refl)
                    (ground (arith, v.subscribed)) v)
          ]
    ]
  ]

  process_lifecycle-IsValid :
      (w : Watchlist F) (d e : ℕ) (quality : F) (volume : ℕ) (m : MetricsCollector)
      → IsValid w
      → IsValid (process_lifecycle w d e quality volume m).0
  unfolding process_lifecycle
  process_lifecycle-IsValid w d e quality volume m v =
      let old = age_all w in
      let falls = check_demotion quality volume d in
      let ids = select falls old.tier_a ++ select falls old.tier_b in
      let demoted = demote_all ids old m in
      evict_all-IsValid e (select (check_eviction e) old.tier_c) demoted.0 demoted.1
        (demote_all-IsValid ids old m (age_all-IsValid w v))

  step-IsValid :
      (w : Watchlist F) (m : MetricsCollector) (call : Call F) → IsValid w → IsValid (step w m call)
  unfolding step update_tick_count touch update_symbol_context update_regime
  step-IsValid w m (adds id cooldown) v = add_candidate-IsValid w id cooldown m v
  step-IsValid w m (promotes id) v = promote-IsValid w id (some m) v
  step-IsValid w m (demotes id) v = demote-IsValid w id v
  step-IsValid w m (cycles d e quality volume) v =
      process_lifecycle-IsValid w d e quality volume m v
  step-IsValid w m (ticks id) v = change_data-IsValid w id _ (λ t d fits. fits) v
  step-IsValid w m (touches id ts) v = change_data-IsValid w id _ (λ t d fits. fits) v
  step-IsValid w m (informs id daily_ctx mtf) v = change_data-IsValid w id _ (λ t d fits. fits) v
  step-IsValid w m (sets_regime regime) v = record {
    apart = v.apart;
    fits_a = v.fits_a;
    fits_b = v.fits_b;
    fits_c = v.fits_c;
    distinct_a = v.distinct_a;
    distinct_b = v.distinct_b;
    distinct_c = v.distinct_c;
    few_a = v.few_a;
    subscribed = v.subscribed;
    few = v.few;
  }

  pub run-IsValid :
      (m : MetricsCollector) (w : Watchlist F) (calls : List (Call F))
      → IsValid w
      → IsValid (run m w calls)
  unfolding run
  run-IsValid m w [] v = v
  run-IsValid m w (call ∷ calls) v = run-IsValid m (step w m call) calls (step-IsValid w m call v)

  -- After any calls on a new watchlist a symbol stands in one tier at most and once in it, its
  -- entry names that tier and has the subscription status of it, Tier A has at most 20 symbols, A
  -- and B together 95, and the three tiers 295.
  pub run-new_list-IsValid :
      (m : MetricsCollector) (calls : List (Call F)) → IsValid (run m new_list calls)
  run-new_list-IsValid m calls = run-IsValid m new_list calls new-IsValid
