-- ===== src/Tape/Scores.antt =====
-- `calculate_scores` and `check_anti_chase` of rust/crates/tape_engine/src/lib.rs.
use ibkr_bot.Base.{Bool, ◌&&◌, ◌||◌, if◌then◌else◌}
use ibkr_bot.Base.Float.{Float}
use ibkr_bot.Core.Types.{TapeMetrics, TapeComponentScores}
use ibkr_bot.Tape.State.{TapeConfig, SymbolState}

module _ {F : Type 0} ⦃f : Float F⦄ where
  -- `clamp`, which leaves a NaN.
  unfoldable pub clamp : F → F → F → F
  clamp low high x = if f.lt x low then low else if f.lt high x then high else x

  unfoldable pub spread_score : F → F
  spread_score spread_cents =
      if f.le spread_cents (f.lit 1 2)
      then f.lit 100 0
      else f.greater
          (f.minus (f.lit 100 0) (f.times (f.minus spread_cents (f.lit 1 2)) (f.lit 2000 0)))
          (f.lit 0 0)

  -- The sum by weights, clamped, with 0 in place of a NaN or an infinity.
  unfoldable pub total_of : F → F
  unfolding clamp
  total_of sum =
      let total = clamp (f.lit 0 0) (f.lit 100 0) sum in
      if f.is_nan total || f.is_infinite total then f.lit 0 0 else total

  unfoldable pub calculate_scores : TapeConfig F → TapeMetrics F → TapeComponentScores F
  unfolding clamp spread_score total_of
  calculate_scores config tape =
      let percent = clamp (f.lit 0 0) (f.lit 100 0) in
      let r_score = percent tape.rate_ticks_per_sec in
      let a_score = percent (f.times tape.aggressive_buy_ratio (f.lit 100 0)) in
      let lp_score = percent tape.large_print_score in
      let spr_score = spread_score tape.spread_cents in
      let abs_score = percent tape.absorption_score in
      let bls_score = percent tape.buy_limit_support_score in
      let w = config.weights in
      let total =
        f.plus
          (f.plus
            (f.plus
              (f.plus (f.plus (f.times r_score w.w_r) (f.times a_score w.w_a))
                (f.times lp_score w.w_lp))
              (f.times spr_score w.w_spr))
            (f.times abs_score w.w_abs))
          (f.times bls_score w.w_bls) in
      record {
        r_score = r_score;
        a_score = a_score;
        lp_score = lp_score;
        spr_score = spr_score;
        abs_score = abs_score;
        bls_score = bls_score;
        total_score = total_of total;
      }

  unfoldable pub check_anti_chase : SymbolState F → Bool
  check_anti_chase state =
      let t = state.tape in
      f.lt (f.lit 0 0) t.vwap
      && f.lt (f.lit 0 0) t.atr
      && f.lt (f.plus t.vwap (f.times (f.lit 2 0) t.atr)) t.price
