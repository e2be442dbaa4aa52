-- ===== src/Risk/State.antt =====
-- `RiskState` of rust/crates/risk_engine/src/lib.rs. A set is a list without repetition; the stable
-- sort of the ladder is an insertion sort.
use ibkr_bot.Base.{
  ℕ, nat_eq, Bool, true, false, not, Option, some, List, [], ◌∷◌, ◌==◌, ◌||◌, if◌then◌else◌, ltb,
  length, contains, retain,
}
use ibkr_bot.Base.Map.{Map, lookup, insert}
use ibkr_bot.Base.Result.{Result, err, ◌>>◌, reject_if}
use ibkr_bot.Base.Float.{Float}
use ibkr_bot.Core.Types.{
  SymbolId, RejectReason, CorporateAction, block, LiquidityConfig, corporate_action_block,
  pdt_violation, price_range,
}
use ibkr_bot.Core.Events.{PositionData}
use ibkr_bot.Risk.Pdt.{PdtGuard, new_pdt_guard, would_violate}
use ibkr_bot.Risk.Exposure.{ExposureValidator, new_exposure_validator, check_new_position}
use ibkr_bot.Risk.Blocklist.{Blocklist, World, new_blocklist, reload_if_needed, is_blocked}

pub record RiskLadderStep (F : Type 0) : Type 0 where
  pub profit_threshold : F
  pub max_daily_loss : F

pub record RiskState (F : Type 0) : Type 0 where
  pub daily_pnl_usd : F
  pub open_positions : ℕ
  pub initial_max_daily_loss : F
  pub current_max_daily_loss : F
  pub corporate_actions : Map SymbolId CorporateAction
  pub blocklist : List SymbolId
  pub liquidity_config : LiquidityConfig F
  pub monitor_only : Bool
  pub risk_ladder : List (RiskLadderStep F)
  pub exposure_validator : ExposureValidator F
  pub pdt_guard : PdtGuard
  pub blocklist_loader : Blocklist
  pub unsettled_proceeds : Map ℕ F

-- `HashSet::insert` and `HashSet::remove`.
abbrev pub add_to : SymbolId → List SymbolId → List SymbolId
add_to id ids = if contains ids id then ids else id ∷ ids

abbrev pub take_from : SymbolId → List SymbolId → List SymbolId
take_from id ids = retain (λ i. not (i == id)) ids

-- `Some(&CorporateAction::Block)`.
abbrev pub is_block : Option CorporateAction → Bool
is_block (some block) = true
is_block _ = false

module _ {F : Type 0} ⦃f : Float F⦄ where
  abbrev pub new_risk_state : World → F → LiquidityConfig F → RiskState F
  new_risk_state w max_loss config = record {
    daily_pnl_usd = f.lit 0 0;
    open_positions = 0;
    initial_max_daily_loss = max_loss;
    current_max_daily_loss = max_loss;
    corporate_actions = [];
    blocklist = [];
    liquidity_config = config;
    monitor_only = false;
    risk_ladder = [];
    exposure_validator = new_exposure_validator;
    pdt_guard = new_pdt_guard 3;
    blocklist_loader = new_blocklist w 60;
    unsettled_proceeds = [];
  }

  -- The loop of `update_risk_limits`.
  unfoldable pub ladder_limit : F → List (RiskLadderStep F) → F → F
  ladder_limit pnl [] limit = limit
  ladder_limit pnl (step ∷ steps) limit =
      ladder_limit pnl steps (if f.le step.profit_threshold pnl then step.max_daily_loss else limit)

  unfoldable pub update_risk_limits : RiskState F → RiskState F
  unfolding ladder_limit
  update_risk_limits r =
      let calculated_limit = ladder_limit r.daily_pnl_usd r.risk_ladder r.initial_max_daily_loss in
      record r {
        current_max_daily_loss =
            if f.lt calculated_limit r.current_max_daily_loss
            then calculated_limit
            else r.current_max_daily_loss;
      }

  unfoldable pub insert_step : RiskLadderStep F → List (RiskLadderStep F) → List (RiskLadderStep F)
  insert_step step [] = step ∷ []
  insert_step step (s ∷ steps) =
      if f.lt step.profit_threshold s.profit_threshold
      then step ∷ s ∷ steps
      else s ∷ insert_step step steps

  unfoldable pub sort_steps :
      List (RiskLadderStep F) → List (RiskLadderStep F) → List (RiskLadderStep F)
  unfolding insert_step
  sort_steps [] sorted = sorted
  sort_steps (step ∷ steps) sorted = sort_steps steps (insert_step step sorted)

  unfoldable pub set_risk_ladder : RiskState F → List (RiskLadderStep F) → RiskState F
  unfolding sort_steps update_risk_limits
  set_risk_ladder r ladder = update_risk_limits (record r { risk_ladder = sort_steps ladder [] })

  unfoldable pub update_pnl : RiskState F → F → RiskState F
  unfolding update_risk_limits
  update_pnl r pnl = update_risk_limits (record r { daily_pnl_usd = pnl })

  unfoldable pub should_terminate : RiskState F → Bool
  should_terminate r = f.le r.daily_pnl_usd (f.negate r.current_max_daily_loss)

  -- The checks of `check_entry` behind the reload, in its order.
  unfoldable pub check_rest :
      RiskState F → Blocklist → SymbolId → List SymbolId → ℕ → Result RejectReason (Unit {0})
  unfolding should_terminate
  check_rest r loader symbol_id open_symbols today_ordinal =
      reject_if (is_blocked loader symbol_id) RejectReason.blocklist
      >> reject_if (should_terminate r) RejectReason.max_daily_loss
      >> reject_if (would_violate r.pdt_guard today_ordinal) pdt_violation
      >> check_new_position r.exposure_validator symbol_id open_symbols

  unfoldable pub check_entry :
      World
      → RiskState F
      → SymbolId
      → List SymbolId
      → ℕ
      → Result RejectReason (Unit {0}) × RiskState F
  unfolding check_rest
  check_entry w r symbol_id open_symbols today_ordinal =
      let loader = reload_if_needed w r.blocklist_loader in
      if r.monitor_only
      then (err RejectReason.monitor_only, r)
      else if contains r.blocklist symbol_id
      then (
        err (
            if is_block (lookup symbol_id r.corporate_actions)
            then corporate_action_block
            else RejectReason.blocklist),
        r,
      )
      else (
        check_rest r loader symbol_id open_symbols today_ordinal,
        record r { blocklist_loader = loader },
      )

  unfoldable pub check_liquidity : RiskState F → F → F → ℕ → F → Result RejectReason (Unit {0})
  check_liquidity r price spread_pct avg_daily_volume addv_usd =
      let c = r.liquidity_config in
      reject_if (f.lt price c.target_price_min || f.lt c.target_price_max price) price_range
      >> reject_if (f.lt c.max_spread_pct spread_pct) RejectReason.liquidity
      >> reject_if (ltb avg_daily_volume c.min_avg_daily_volume) RejectReason.liquidity
      >> reject_if (f.lt addv_usd c.min_addv_usd) RejectReason.liquidity

  -- The entries of a `BTreeMap` in the order of their keys.
  unfoldable pub add_by_key : ℕ → F → Map ℕ F → Map ℕ F
  add_by_key k v [] = (k, v) ∷ []
  add_by_key k v ((j, w) ∷ rest) =
      if ltb j k then (j, w) ∷ add_by_key k v rest else (k, v) ∷ (j, w) ∷ rest

  unfoldable pub by_key : Map ℕ F → Map ℕ F
  unfolding add_by_key
  by_key [] = []
  by_key ((k, v) ∷ rest) = add_by_key k v (by_key rest)

  -- The sum over `unsettled_proceeds`, in the order given.
  unfoldable pub locked_from : ℕ → Map ℕ F → F → F
  locked_from today [] total = total
  locked_from today ((settle_date, amt) ∷ rest) total =
      locked_from today rest (if ltb today settle_date then f.plus total amt else total)

  unfoldable pub available_cash : RiskState F → ℕ → F → F
  unfolding by_key locked_from
  available_cash r today_ordinal total_cash =
      f.greater
        (f.minus total_cash (locked_from today_ordinal (by_key r.unsettled_proceeds) (f.lit 0 0)))
        (f.lit 0 0)

module _ {F : Type 0} where
  unfoldable pub set_corporate_action : RiskState F → SymbolId → CorporateAction → RiskState F
  set_corporate_action r symbol_id action = record r {
    corporate_actions = insert symbol_id action r.corporate_actions;
    blocklist = if is_block (some action) then add_to symbol_id r.blocklist else r.blocklist;
  }

  unfoldable pub block_symbol : RiskState F → SymbolId → RiskState F
  block_symbol r symbol_id = record r { blocklist = add_to symbol_id r.blocklist }

  unfoldable pub unblock_symbol : RiskState F → SymbolId → RiskState F
  unblock_symbol r symbol_id =
      if is_block (lookup symbol_id r.corporate_actions)
      then r
      else record r { blocklist = take_from symbol_id r.blocklist }

  unfoldable pub set_monitor_only : RiskState F → Bool → RiskState F
  set_monitor_only r on = record r { monitor_only = on }

  unfoldable pub rebuild_state : RiskState F → List (PositionData F) → RiskState F
  rebuild_state r positions = record r { open_positions = length positions }

  unfoldable pub config_change_allowed : RiskState F → Bool
  config_change_allowed r = r.open_positions == 0
