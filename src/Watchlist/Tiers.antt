-- ===== src/Watchlist/Tiers.antt =====
-- `TierData`, `Watchlist`, and the methods that move no symbol:
-- rust/crates/watchlist_engine/src/lib.rs. An `impl` that returns a reference for writing is the
-- table update that the caller makes through it.
use ibkr_bot.Base.{
  ℕ, nat_eq, Bool, Option, some, none, [], ◌∷◌, ◌++◌, ◌+◌, if◌then◌else◌, leb, length,
}
use ibkr_bot.Base.Map.{Map, lookup, insert, adjust, contains_key}
use ibkr_bot.Base.Float.{Float}
use ibkr_bot.Base.Int.{add_u64}
use ibkr_bot.Core.Types.{
  SymbolId, Tier, a, b, c, SubscriptionStatus, ColdStartState, cold_start, warm_active, full_active,
  DailyContext, MtfAnalysis, RegimeState, normal,
}

abbrev pub tick_ready_threshold : ℕ
tick_ready_threshold = 50

abbrev pub max_tier_a : ℕ
max_tier_a = 20

abbrev pub max_tier_b : ℕ
max_tier_b = 100

abbrev pub max_tier_c : ℕ
max_tier_c = 200

abbrev pub max_total_subscriptions : ℕ
max_total_subscriptions = 95

abbrev pub warm_buffer_ticks : ℕ
warm_buffer_ticks = 100

pub record TierData (F : Type 0) : Type 0 where
  pub tier : Tier
  pub tick_count : ℕ
  pub subscription_status : SubscriptionStatus
  pub last_activity : ℕ
  pub cold_start_state : ColdStartState
  pub ticks_in_warm_state : ℕ
  pub daily_context : Option (DailyContext F)
  pub mtf_analysis : Option MtfAnalysis
  pub inactive_cycles : ℕ
  pub quality_score : F
  pub volume : ℕ

pub record Watchlist (F : Type 0) : Type 0 where
  pub tier_a : Map SymbolId (TierData F)
  pub tier_b : Map SymbolId (TierData F)
  pub tier_c : Map SymbolId (TierData F)
  pub current_regime : RegimeState
  pub recently_evicted : Map SymbolId ℕ

pub record WatchlistSnapshot (F : Type 0) : Type 0 where
  pub tier_a_count : ℕ
  pub tier_b_count : ℕ
  pub tier_c_count : ℕ
  pub total_subscriptions : ℕ
  pub regime : RegimeState
  pub contexts : Map SymbolId (DailyContext F)
  pub mtf_results : Map SymbolId MtfAnalysis

abbrev pub new_list : {F : Type 0} → Watchlist F
new_list = record {
  tier_a = [];
  tier_b = [];
  tier_c = [];
  current_regime = normal;
  recently_evicted = [];
}

module _ {F : Type 0} where
  abbrev pub new_data : ⦃f : Float F⦄ → Tier → TierData F
  new_data ⦃f⦄ tier = record {
    tier = tier;
    tick_count = 0;
    subscription_status = SubscriptionStatus.none;
    last_activity = 0;
    cold_start_state = cold_start;
    ticks_in_warm_state = 0;
    daily_context = none;
    mtf_analysis = none;
    inactive_cycles = 0;
    quality_score = f.lit 0 0;
    volume = 0;
  }

  -- The `match self.cold_start_state` of `update_cold_start`.
  unfoldable pub warm_up : TierData F → ColdStartState → TierData F
  warm_up entry cold_start = record entry {
    cold_start_state = warm_active;
    ticks_in_warm_state = 0;
  }
  warm_up entry warm_active =
      let ticks = add_u64 entry.ticks_in_warm_state 1 in
      record entry {
        ticks_in_warm_state = ticks;
        cold_start_state =
            if leb warm_buffer_ticks ticks then full_active else entry.cold_start_state;
      }
  warm_up entry full_active = entry

  unfoldable pub update_cold_start : TierData F → Bool → TierData F
  update_cold_start entry is_surge =
      if is_surge
      then record entry { cold_start_state = full_active }
      else warm_up entry entry.cold_start_state

  unfoldable pub acceleration_weight : ⦃f : Float F⦄ → TierData F → F
  acceleration_weight ⦃f⦄ entry = elim entry.cold_start_state [
    | cold_start ↦ f.lit 0 0
    | warm_active ↦ f.lit 5 1
    | full_active ↦ f.lit 1 0
  ]

  abbrev pub total_subscriptions : Watchlist F → ℕ
  total_subscriptions w = length w.tier_a + length w.tier_b

  -- The loop of `snapshot`, over one of the two tables it fills.
  unfoldable pub collect :
      {V : Type 0}
      → (TierData F → Option V)
      → Map SymbolId (TierData F)
      → Map SymbolId V
      → Map SymbolId V
  collect read [] found = found
  collect read ((id, entry) ∷ rest) found = elim (read entry) [
    | none ↦ collect read rest found
    | some v ↦ collect read rest (insert id v found)
  ]

  unfoldable pub snapshot : Watchlist F → WatchlistSnapshot F
  snapshot w =
      let all = w.tier_a ++ w.tier_b ++ w.tier_c in
      record {
        tier_a_count = length w.tier_a;
        tier_b_count = length w.tier_b;
        tier_c_count = length w.tier_c;
        total_subscriptions = total_subscriptions w;
        regime = w.current_regime;
        contexts = collect (λ d. d.daily_context) all [];
        mtf_results = collect (λ d. d.mtf_analysis) all [];
      }

  unfoldable pub update_regime : Watchlist F → RegimeState → Watchlist F
  update_regime w regime = record w { current_regime = regime }

  unfoldable pub get_tier : Watchlist F → SymbolId → Option Tier
  get_tier w id =
      if contains_key id w.tier_a
      then some a
      else if contains_key id w.tier_b
      then some b
      else if contains_key id w.tier_c
      then some c
      else none

  unfoldable pub get_data : Watchlist F → SymbolId → Option (TierData F)
  get_data w id = elim (lookup id w.tier_a) [
    | some d ↦ some d
    | none ↦ elim (lookup id w.tier_b) [ some d ↦ some d | none ↦ lookup id w.tier_c ]
  ]

  -- `get_data_mut`, and what its caller writes through the reference.
  unfoldable pub change_data : Watchlist F → SymbolId → (TierData F → TierData F) → Watchlist F
  change_data w id f =
      if contains_key id w.tier_a
      then record w { tier_a = adjust id f w.tier_a }
      else if contains_key id w.tier_b
      then record w { tier_b = adjust id f w.tier_b }
      else record w { tier_c = adjust id f w.tier_c }

  unfoldable pub update_symbol_context :
      Watchlist F → SymbolId → DailyContext F → MtfAnalysis → Watchlist F
  unfolding change_data
  update_symbol_context w id daily_ctx mtf =
      change_data w id
        (λ entry. record entry { daily_context = some daily_ctx; mtf_analysis = some mtf })

  unfoldable pub update_tick_count : Watchlist F → SymbolId → Watchlist F
  unfolding change_data
  update_tick_count w id =
      change_data w id
        (λ entry. record entry { tick_count = add_u64 entry.tick_count 1; inactive_cycles = 0 })

  unfoldable pub touch : Watchlist F → SymbolId → ℕ → Watchlist F
  unfolding change_data
  touch w id ts = change_data w id (λ entry. record entry { last_activity = ts })
