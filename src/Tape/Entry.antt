-- ===== src/Tape/Entry.antt =====
-- `evaluate_entry_logic` of rust/crates/tape_engine/src/lib.rs. `World` is what the reload of the
-- blocklist reads; `today` is the ordinal of the market day.
use ibkr_bot.Base.{
  ℕ, zero, suc, nat_eq, Bool, not, Option, some, none, List, [], ◌∷◌, ◌==◌, if◌then◌else◌,
}
use ibkr_bot.Base.Map.{Map, lookup}
use ibkr_bot.Base.Result.{Result, ok, err, ◌>>◌, ◌>>=◌, reject_if, is_ok}
use ibkr_bot.Base.Float.{Float}
use ibkr_bot.Base.Int.{is_zero}
use ibkr_bot.Core.Types.{
  SymbolId, RejectReason, unknown, regime, daily_context, mtf_veto, anti_chase, tape_reversal,
  tape_score_low, net_negative, exposure, Tier, a, tier_eq, ColdStartState, cold_start, warm_active,
  full_active, normal, regime_eq, DailyContext, play, context_eq, MtfAnalysis,
}
use ibkr_bot.Risk.Blocklist.{World}
use ibkr_bot.Risk.Exposure.{check_new_position}
use ibkr_bot.Risk.State.{RiskState, check_entry, check_liquidity}
use ibkr_bot.Risk.Sizing.{expected_net}
use ibkr_bot.Risk.Guards.{Quote, Verdict, check_execution}
use ibkr_bot.Tape.State.{TapeConfig, SymbolState, TapeEngine}
use ibkr_bot.Tape.Scores.{calculate_scores, check_anti_chase}

-- The symbols with a position, at most `n` of them, in the table's order.
unfoldable pub open_symbols : {F : Type 0} → ℕ → Map SymbolId (SymbolState F) → List SymbolId
open_symbols n [] = []
open_symbols zero ((id, state) ∷ states) = []
open_symbols (suc n) ((id, state) ∷ states) =
    let rest = open_symbols n states in
    if is_zero state.position then open_symbols (suc n) states else id ∷ rest

unfoldable pub context_gate : {F : Type 0} → Option (DailyContext F) → Verdict
context_gate none = err daily_context
context_gate (some ctx) = reject_if (not (ctx.state == play)) daily_context

unfoldable pub mtf_gate : Option MtfAnalysis → Verdict
mtf_gate none = err mtf_veto
mtf_gate (some mtf) = reject_if (not mtf.mtf_pass) mtf_veto

unfoldable pub threshold :
    {F : Type 0} → TapeConfig F → Bool → Tier → ColdStartState → Result RejectReason F
threshold config target_reached a warm_active = ok config.tape_threshold_warm
threshold config target_reached a full_active =
    ok (if target_reached then config.tape_threshold_post_target else config.tape_threshold_normal)
threshold config target_reached a cold_start = err tape_score_low
threshold config target_reached _ _ = err RejectReason.blocklist

module _ {F : Type 0} ⦃f : Float F⦄ where
  abbrev pub adv : SymbolState F → ℕ
  adv state = elim state.daily_context [ some ctx ↦ ctx.volume_profile.avg_20d_volume | none ↦ 0 ]

  abbrev pub addv_usd : SymbolState F → F
  addv_usd state = elim state.daily_context [
    | some ctx ↦ f.times (f.of_nat ctx.volume_profile.avg_20d_volume) state.tape.price
    | none ↦ f.lit 0 0
  ]

  -- Gates 3 and 4.
  unfoldable pub liquidity_gate : RiskState F → SymbolState F → Verdict
  unfolding check_liquidity
  liquidity_gate r state =
      let t = state.tape in
      check_liquidity r t.price (f.over t.spread_cents (f.greater t.price (f.lit 1 2))) (adv state)
        (addv_usd state)

  -- Gates 3 to 8, after `check_entry` and before the guards.
  unfoldable pub early_gates : TapeEngine F → SymbolState F → Verdict
  unfolding liquidity_gate context_gate mtf_gate check_anti_chase
  early_gates e state =
      liquidity_gate e.risk_state state
      >> reject_if (not (e.regime_state == normal)) regime
      >> context_gate state.daily_context
      >> mtf_gate state.mtf_analysis
      >> reject_if (check_anti_chase state) anti_chase

  abbrev pub entry_quote : SymbolState F → ℕ → Quote F
  entry_quote state ts_src = record {
    data_timestamp_ms = ts_src;
    bid = state.tape.bid;
    ask = state.tape.ask;
    bid_size = state.tape.bid_size;
    ask_size = state.tape.ask_size;
    last_trade_price = state.last_trade_price;
  }

  unfoldable pub score_gate : TapeEngine F → SymbolState F → Verdict
  unfolding threshold calculate_scores
  score_gate e state =
      threshold e.config e.daily_target_reached state.tier state.cold_start_state >>= λ limit.
      reject_if (f.lt (calculate_scores e.config state.tape).total_score limit) tape_score_low

  abbrev pub net_of : TapeEngine F → SymbolState F → F
  net_of e state =
      let t = state.tape in
      expected_net e.pricing_model e.last_sizing_shares t.price t.spread_cents t.vol_1m
        t.avg_depth_top3

  unfoldable pub check_exposure : TapeEngine F → SymbolId → List SymbolId → Bool
  check_exposure e symbol held =
      is_ok (check_new_position e.risk_state.exposure_validator symbol held)

  -- Gates 10 to 12.
  unfoldable pub late_gates : TapeEngine F → SymbolState F → SymbolId → List SymbolId → Verdict
  unfolding score_gate expected_net check_exposure
  late_gates e state symbol held =
      reject_if state.tape.is_reversal tape_reversal
      >> score_gate e state
      >> reject_if (f.le (net_of e state) e.pricing_model.min_net_profit_usd) net_negative
      >> reject_if (not (check_exposure e symbol held)) exposure

  -- The gates from 1 on: the guards are asked only if those before them pass.
  unfoldable pub evaluate_gates :
      World → TapeEngine F → SymbolState F → SymbolId → ℕ → ℕ → Verdict × TapeEngine F
  unfolding open_symbols check_entry early_gates check_execution late_gates
  evaluate_gates w e state symbol ts_src today =
      let held = open_symbols 2 e.symbol_states in
      let entry = check_entry w e.risk_state symbol held today in
      let entered = record e { risk_state = entry.1 } in
      let guarded = check_execution e.guard_evaluator symbol ts_src (entry_quote state ts_src) in
      let checked = record entered { guard_evaluator = guarded.1 } in
      elim (entry.0 >> early_gates entered state) [
        | err reason ↦ (err reason, entered)
        | ok _ ↦ (guarded.0 >> late_gates checked state symbol held, checked)
      ]

  unfoldable pub evaluate_entry_logic :
      World → TapeEngine F → SymbolId → ℕ → ℕ → Verdict × TapeEngine F
  unfolding evaluate_gates
  evaluate_entry_logic w e symbol ts_src today =
      if e.risk_state.monitor_only
      then (err RejectReason.monitor_only, e)
      else elim (lookup symbol e.symbol_states) [
        | none ↦ (err unknown, e)
        | some state ↦
            if not (state.tier == a)
            then (err RejectReason.blocklist, e)
            else evaluate_gates w e state symbol ts_src today
      ]
