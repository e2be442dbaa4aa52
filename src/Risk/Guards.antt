-- ===== src/Risk/Guards.antt =====
-- `GuardEvaluator` of rust/crates/risk_engine/src/guards.rs.
use ibkr_bot.Base.{ℕ, nat_eq, false, Option, some, none, [], ◌-◌, ◌*◌, ◌||◌, if◌then◌else◌, ltb}
use ibkr_bot.Base.Map.{Map, lookup, insert}
use ibkr_bot.Base.Result.{Result, ok, err}
use ibkr_bot.Base.Float.{Float}
use ibkr_bot.Base.Int.{add_u32, add_u64}
use ibkr_bot.Core.Types.{
  SymbolId, RejectReason, guard_flicker, guard_stale, guard_spread, guard_l2_vacuum,
  guard_imbalance, guard_slippage,
}
use ibkr_bot.Core.TimeBuffer.{TimeRingBuffer, new, push, prune_expired, len}

pub record GuardConfig (F : Type 0) : Type 0 where
  pub max_spread_cents : F
  pub max_imbalance_ratio : F
  pub max_staleness_ms : ℕ
  pub min_liquidity_shares : ℕ
  pub max_flicker_count : ℕ
  pub flicker_window_ms : ℕ
  pub slippage_tol_cents : F
  pub ttl_ms : ℕ

pub record GuardState : Type 0 where
  pub last_update_ts : ℕ
  pub blocked_until : ℕ
  pub block_reason : Option RejectReason
  pub flicker_buffer : TimeRingBuffer (Unit {0})

pub record GuardEvaluator (F : Type 0) : Type 0 where
  pub config : GuardConfig F
  pub states : Map SymbolId GuardState

abbrev pub default_config : {F : Type 0} ⦃f : Float F⦄ → GuardConfig F
default_config ⦃f⦄ = record {
  max_spread_cents = f.lit 5 2;
  max_imbalance_ratio = f.lit 7 1;
  max_staleness_ms = 3000;
  min_liquidity_shares = 200;
  max_flicker_count = 10;
  flicker_window_ms = 1000;
  slippage_tol_cents = f.lit 3 2;
  ttl_ms = 2000;
}

abbrev pub new_guard_state : ℕ → ℕ → GuardState
new_guard_state flicker_capacity flicker_window_unit = record {
  last_update_ts = 0;
  blocked_until = 0;
  block_reason = none;
  flicker_buffer = new flicker_capacity flicker_window_unit;
}

-- What a market data update says of the best bid and ask.
pub record Quote (F : Type 0) : Type 0 where
  pub data_timestamp_ms : ℕ
  pub bid : F
  pub ask : F
  pub bid_size : ℕ
  pub ask_size : ℕ
  pub last_trade_price : F

abbrev pub Verdict : Type 0
Verdict = Result RejectReason (Unit {0})

-- The reason of a block that is still on.
unfoldable pub standing_block : GuardState → ℕ → Option RejectReason
standing_block s timestamp_ms = if ltb timestamp_ms s.blocked_until then s.block_reason else none

unfoldable pub block_for : ℕ → ℕ → RejectReason → GuardState → GuardState
block_for ttl_ms timestamp_ms reason s = record s {
  blocked_until = add_u64 timestamp_ms ttl_ms;
  block_reason = some reason;
}

module _ {F : Type 0} where
  abbrev pub new_guard_evaluator : GuardConfig F → GuardEvaluator F
  new_guard_evaluator config = record { config = config; states = [] }

  -- `entry(symbol).or_insert_with(…)`.
  unfoldable pub state_of : GuardEvaluator F → SymbolId → GuardState
  state_of g symbol = elim (lookup symbol g.states) [
    | some s ↦ s
    | none ↦ new_guard_state (g.config.max_flicker_count * 2) g.config.flicker_window_ms
  ]

  -- A state as `track_event` leaves it, with its result, from the block that stands.
  unfoldable pub track_state :
      GuardConfig F → ℕ → GuardState → Option RejectReason → Verdict × GuardState
  unfolding block_for
  track_state config timestamp_ms s (some reason) = (err reason, s)
  track_state config timestamp_ms s none =
      let counted = record s {
        flicker_buffer = prune_expired (push s.flicker_buffer timestamp_ms tt) timestamp_ms;
      } in
      if ltb config.max_flicker_count (len counted.flicker_buffer)
      then (err guard_flicker, block_for config.ttl_ms timestamp_ms guard_flicker counted)
      else (ok tt, counted)

  unfoldable pub track_event : GuardEvaluator F → SymbolId → ℕ → Verdict × GuardEvaluator F
  unfolding state_of standing_block track_state
  track_event g symbol timestamp_ms =
      let s = record (state_of g symbol) { last_update_ts = timestamp_ms } in
      let done = track_state g.config timestamp_ms s (standing_block s timestamp_ms) in
      (done.0, record g { states = insert symbol done.1 g.states })

module _ {F : Type 0} ⦃f : Float F⦄ where
  -- The five checks of `check_execution`, in its order: the reason of the first that fails.
  unfoldable pub failed_guard : GuardConfig F → ℕ → Quote F → Option RejectReason
  failed_guard config timestamp_ms q =
      let spread = f.minus q.ask q.bid in
      let total_liquidity = add_u32 q.bid_size q.ask_size in
      let imb =
        f.over (f.absolute (f.minus (f.of_nat q.bid_size) (f.of_nat q.ask_size)))
          (f.of_nat total_liquidity) in
      let mid = f.over (f.plus q.bid q.ask) (f.lit 2 0) in
      let deviation = f.absolute (f.minus mid q.last_trade_price) in
      if ltb config.max_staleness_ms (timestamp_ms - q.data_timestamp_ms)
      then some guard_stale
      else if f.lt config.max_spread_cents spread || f.le spread (f.lit 0 0)
      then some guard_spread
      else if ltb total_liquidity config.min_liquidity_shares
      then some guard_l2_vacuum
      else if (if ltb 0 total_liquidity then f.lt config.max_imbalance_ratio imb else false)
      then some guard_imbalance
      else if f.lt config.slippage_tol_cents deviation
      then some guard_slippage
      else none

  -- A state as `check_execution` leaves it: from the block that stands, then from the guard that
  -- fails.
  unfoldable pub check_state :
      GuardConfig F
      → ℕ
      → GuardState
      → Option RejectReason
      → Option RejectReason
      → Verdict × GuardState
  unfolding block_for
  check_state config timestamp_ms s (some reason) _ = (err reason, s)
  check_state config timestamp_ms s none (some reason) =
      (err reason, block_for config.ttl_ms timestamp_ms reason s)
  check_state config timestamp_ms s none none =
      (ok tt, record s { last_update_ts = timestamp_ms; block_reason = none })

  unfoldable pub check_execution :
      GuardEvaluator F → SymbolId → ℕ → Quote F → Verdict × GuardEvaluator F
  unfolding state_of standing_block check_state failed_guard
  check_execution g symbol timestamp_ms q =
      let s = state_of g symbol in
      let done =
        check_state g.config timestamp_ms s (standing_block s timestamp_ms)
          (failed_guard g.config timestamp_ms q) in
      (done.0, record g { states = insert symbol done.1 g.states })
