-- ===== src/Watchlist/Valid.antt =====
-- What holds of a watchlist after every call, and the moves of one symbol that keep it:
-- rust/crates/watchlist_engine/src/lib.rs.
use ibkr_bot.Base.{ℕ, nat_eq, Bool, false, some, ◌+◌, ◌<◌, ◌≤◌, ◌≡◌, ◌&&◌, ◌||◌, length, arith}
use ibkr_bot.Base.Map.{
  Map, lookup, insert, remove, contains_key, Entries, contains_key-insert, contains_key-remove,
  Entries-insert, Entries-remove, length-insert-le, length-remove-lt, length-remove-le,
  Entries-lookup,
}
use ibkr_bot.Base.Keys.{Distinct, Distinct-insert, Distinct-remove}
use ibkr_bot.Core.Types.{SymbolId, Tier, a, b, c, SubscriptionStatus, pending}
use ibkr_bot.Watchlist.Tiers.{
  TierData, Watchlist, total_subscriptions, max_tier_a, max_total_subscriptions,
}

abbrev pub status_of : Tier → SubscriptionStatus
status_of a = pending
status_of b = pending
status_of c = SubscriptionStatus.none

-- At most one of the three.
abbrev pub Apart : Bool → Bool → Bool → Type 0
Apart x y z = (x && y || x && z || y && z) ≡ false

-- The most symbols that the three tiers come to hold.
abbrev pub max_symbols : ℕ
max_symbols = 295

module _ {F : Type 0} where
  abbrev pub Fits : Tier → SymbolId → TierData F → Type 0
  Fits t id d = (d.tier ≡ t) × (d.subscription_status ≡ status_of t)

  abbrev pub ApartAt : Watchlist F → SymbolId → Type 0
  ApartAt w id =
      Apart (contains_key id w.tier_a) (contains_key id w.tier_b) (contains_key id w.tier_c)

  abbrev pub count : Watchlist F → ℕ
  count w = length w.tier_a + length w.tier_b + length w.tier_c

  pub record IsValid (w : Watchlist F) : Type 0 where
    pub apart : (id : SymbolId) → ApartAt w id
    pub fits_a : Entries (Fits a) w.tier_a
    pub fits_b : Entries (Fits b) w.tier_b
    pub fits_c : Entries (Fits c) w.tier_c
    pub distinct_a : Distinct w.tier_a
    pub distinct_b : Distinct w.tier_b
    pub distinct_c : Distinct w.tier_c
    pub few_a : length w.tier_a ≤ max_tier_a
    pub subscribed : total_subscriptions w ≤ max_total_subscriptions
    pub few : count w ≤ max_symbols

  pub b_to_a-IsValid :
      (w : Watchlist F) (id : SymbolId) (old new : TierData F)
      → lookup id w.tier_b ≡ some old
      → Fits a id new
      → length w.tier_a < max_tier_a
      → IsValid w
      → IsValid (record w { tier_b = remove id w.tier_b; tier_a = insert id new w.tier_a })
  b_to_a-IsValid w id old new found fit room v = record {
    apart = λ j.
        rw (contains_key-insert id j new w.tier_a, contains_key-remove id j w.tier_b)
          (ground (arith, v.apart j, v.apart id, found));
    fits_a = Entries-insert (Fits a) id new w.tier_a fit v.fits_a;
    fits_b = Entries-remove (Fits b) id w.tier_b v.fits_b;
    fits_c = v.fits_c;
    distinct_a = Distinct-insert id new w.tier_a v.distinct_a;
    distinct_b = Distinct-remove id w.tier_b v.distinct_b;
    distinct_c = v.distinct_c;
    few_a = omega (arith, length-insert-le id new w.tier_a);
    subscribed = omega (
      arith,
      length-insert-le id new w.tier_a,
      length-remove-lt id old w.tier_b found,
      v.subscribed,
    );
    few =
        omega
          (arith, length-insert-le id new w.tier_a, length-remove-lt id old w.tier_b found, v.few);
  }

  pub c_to_b-IsValid :
      (w : Watchlist F) (id : SymbolId) (old new : TierData F)
      → lookup id w.tier_c ≡ some old
      → Fits b id new
      → total_subscriptions w < max_total_subscriptions
      → IsValid w
      → IsValid (record w { tier_c = remove id w.tier_c; tier_b = insert id new w.tier_b })
  c_to_b-IsValid w id old new found fit room v = record {
    apart = λ j.
        rw (contains_key-insert id j new w.tier_b, contains_key-remove id j w.tier_c)
          (ground (arith, v.apart j, v.apart id, found));
    fits_a = v.fits_a;
    fits_b = Entries-insert (Fits b) id new w.tier_b fit v.fits_b;
    fits_c = Entries-remove (Fits c) id w.tier_c v.fits_c;
    distinct_a = v.distinct_a;
    distinct_b = Distinct-insert id new w.tier_b v.distinct_b;
    distinct_c = Distinct-remove id w.tier_c v.distinct_c;
    few_a = v.few_a;
    subscribed = omega (arith, length-insert-le id new w.tier_b);
    few =
        omega
          (arith, length-insert-le id new w.tier_b, length-remove-lt id old w.tier_c found, v.few);
  }

  pub a_to_b-IsValid :
      (w : Watchlist F) (id : SymbolId) (old new : TierData F)
      → lookup id w.tier_a ≡ some old
      → Fits b id new
      → IsValid w
      → IsValid (record w { tier_a = remove id w.tier_a; tier_b = insert id new w.tier_b })
  a_to_b-IsValid w id old new found fit v = record {
    apart = λ j.
        rw (contains_key-insert id j new w.tier_b, contains_key-remove id j w.tier_a)
          (ground (arith, v.apart j, v.apart id, found));
    fits_a = Entries-remove (Fits a) id w.tier_a v.fits_a;
    fits_b = Entries-insert (Fits b) id new w.tier_b fit v.fits_b;
    fits_c = v.fits_c;
    distinct_a = Distinct-remove id w.tier_a v.distinct_a;
    distinct_b = Distinct-insert id new w.tier_b v.distinct_b;
    distinct_c = v.distinct_c;
    few_a = omega (arith, length-remove-le id w.tier_a, v.few_a);
    subscribed = omega (
      arith,
      length-insert-le id new w.tier_b,
      length-remove-lt id old w.tier_a found,
      v.subscribed,
    );
    few =
        omega
          (arith, length-insert-le id new w.tier_b, length-remove-lt id old w.tier_a found, v.few);
  }

  pub b_to_c-IsValid :
      (w : Watchlist F) (id : SymbolId) (old new : TierData F)
      → lookup id w.tier_b ≡ some old
      → Fits c id new
      → IsValid w
      → IsValid (record w { tier_b = remove id w.tier_b; tier_c = insert id new w.tier_c })
  b_to_c-IsValid w id old new found fit v = record {
    apart = λ j.
        rw (contains_key-insert id j new w.tier_c, contains_key-remove id j w.tier_b)
          (ground (arith, v.apart j, v.apart id, found));
    fits_a = v.fits_a;
    fits_b = Entries-remove (Fits b) id w.tier_b v.fits_b;
    fits_c = Entries-insert (Fits c) id new w.tier_c fit v.fits_c;
    distinct_a = v.distinct_a;
    distinct_b = Distinct-remove id w.tier_b v.distinct_b;
    distinct_c = Distinct-insert id new w.tier_c v.distinct_c;
    few_a = v.few_a;
    subscribed = omega (arith, length-remove-le id w.tier_b, v.subscribed);
    few =
        omega
          (arith, length-insert-le id new w.tier_c, length-remove-lt id old w.tier_b found, v.few);
  }

  -- A symbol leaves Tier C; the cooldowns are not read.
  pub drop_c-IsValid :
      (w : Watchlist F) (id : SymbolId) (cooling : Map SymbolId ℕ)
      → IsValid w
      → IsValid (record w { tier_c = remove id w.tier_c; recently_evicted = cooling })
  drop_c-IsValid w id cooling v = record {
    apart = λ j. rw (contains_key-remove id j w.tier_c) (ground (arith, v.apart j));
    fits_a = v.fits_a;
    fits_b = v.fits_b;
    fits_c = Entries-remove (Fits c) id w.tier_c v.fits_c;
    distinct_a = v.distinct_a;
    distinct_b = v.distinct_b;
    distinct_c = Distinct-remove id w.tier_c v.distinct_c;
    few_a = v.few_a;
    subscribed = v.subscribed;
    few = omega (arith, length-remove-le id w.tier_c, v.few);
  }

  -- A symbol of no other tier is written to Tier C, which is not full.
  pub put_c-IsValid :
      (w : Watchlist F) (id : SymbolId) (new : TierData F)
      → contains_key id w.tier_a ≡ false
      → contains_key id w.tier_b ≡ false
      → Fits c id new
      → count w < max_symbols
      → IsValid w
      → IsValid (record w { tier_c = insert id new w.tier_c })
  put_c-IsValid w id new not_a not_b fit room v = record {
    apart =
        λ j. rw (contains_key-insert id j new w.tier_c) (ground (arith, v.apart j, not_a, not_b));
    fits_a = v.fits_a;
    fits_b = v.fits_b;
    fits_c = Entries-insert (Fits c) id new w.tier_c fit v.fits_c;
    distinct_a = v.distinct_a;
    distinct_b = v.distinct_b;
    distinct_c = Distinct-insert id new w.tier_c v.distinct_c;
    few_a = v.few_a;
    subscribed = v.subscribed;
    few = omega (arith, length-insert-le id new w.tier_c, v.few);
  }

  -- What `promote` does to a symbol that is not ready: it leaves its tier and enters it again.
  pub reenter_b-IsValid :
      (w : Watchlist F) (id : SymbolId) (d : TierData F)
      → lookup id w.tier_b ≡ some d
      → IsValid w
      → IsValid (record w { tier_b = insert id d (remove id w.tier_b) })
  reenter_b-IsValid w id d found v =
      let rest = remove id w.tier_b in
      record {
        apart = λ j.
            rw (contains_key-insert id j d rest, contains_key-remove id j w.tier_b)
              (ground (arith, v.apart j, v.apart id, found));
        fits_a = v.fits_a;
        fits_b =
            Entries-insert (Fits b) id d rest (Entries-lookup (Fits b) id d w.tier_b v.fits_b found)
              (Entries-remove (Fits b) id w.tier_b v.fits_b);
        fits_c = v.fits_c;
        distinct_a = v.distinct_a;
        distinct_b = Distinct-insert id d rest (Distinct-remove id w.tier_b v.distinct_b);
        distinct_c = v.distinct_c;
        few_a = v.few_a;
        subscribed =
            omega (
              arith,
              length-insert-le id d rest,
              length-remove-lt id d w.tier_b found,
              v.subscribed,
            );
        few =
            omega (arith, length-insert-le id d rest, length-remove-lt id d w.tier_b found, v.few);
      }
