-- ===== src/Risk/Ratchet.antt =====
-- The daily loss limit only tightens: rust/crates/risk_engine/src/lib.rs.
use ibkr_bot.Base.{nat_eq, Bool, true, List, [], ◌∷◌, ◌≡◌, ◌⊎◌, inl, inr, refl, Bool-cases, arith}
use ibkr_bot.Base.Float.{Float}
use ibkr_bot.Risk.State.{
  RiskState, ladder_limit, update_risk_limits, set_risk_ladder, update_pnl, should_terminate,
  set_corporate_action, block_symbol, unblock_symbol, set_monitor_only, rebuild_state, check_entry,
  sort_steps,
}
use ibkr_bot.Risk.History.{
  Call, sets_ladder, updates_pnl, sets_action, blocks, unblocks, sets_monitor, enters, rebuilds,
  step, run,
}

module _ {F : Type 0} ⦃f : Float F⦄ where
  -- The two limits are one, or the second is lower.
  abbrev Tightens : F → F → Type 0
  Tightens before after = (after ≡ before) ⊎ (f.lt after before ≡ true)

  update_risk_limits-Tightens :
      (r : RiskState F)
      → Tightens r.current_max_daily_loss (update_risk_limits r).current_max_daily_loss
  unfolding update_risk_limits
  update_risk_limits-Tightens r =
      let limit = ladder_limit r.daily_pnl_usd r.risk_ladder r.initial_max_daily_loss in
      elim (Bool-cases (f.lt limit r.current_max_daily_loss)) [
        | inl lower ↦ inr (rw lower lower)
        | inr higher ↦ inl (rw higher refl)
      ]

  step-Tightens :
      (r : RiskState F) (call : Call F)
      → Tightens r.current_max_daily_loss (step r call).current_max_daily_loss
  unfolding step set_risk_ladder update_pnl set_corporate_action block_symbol unblock_symbol
      set_monitor_only rebuild_state check_entry
  step-Tightens r (sets_ladder ladder) =
      update_risk_limits-Tightens (record r { risk_ladder = sort_steps ladder [] })
  step-Tightens r (updates_pnl pnl) = update_risk_limits-Tightens (record r { daily_pnl_usd = pnl })
  step-Tightens r (sets_action id action) = inl refl
  step-Tightens r (blocks id) = inl refl
  step-Tightens r (unblocks id) = inl (ground arith)
  step-Tightens r (sets_monitor on) = inl refl
  step-Tightens r (enters w id held today) = inl (ground arith)
  step-Tightens r (rebuilds positions) = inl refl

  -- Whether the bot stops at a given profit and loss.
  abbrev pub stops_at : RiskState F → F → Bool
  stops_at r pnl = should_terminate (record r { daily_pnl_usd = pnl })

  Tightens-stops_at :
      ((a b p : F) → f.lt a b ≡ true → f.le p (f.negate b) ≡ true → f.le p (f.negate a) ≡ true)
      → (r s : RiskState F) (pnl : F) → Tightens r.current_max_daily_loss s.current_max_daily_loss
      → stops_at r pnl ≡ true
      → stops_at s pnl ≡ true
  unfolding should_terminate
  Tightens-stops_at reverses r s pnl (inl same) h = rw same h
  Tightens-stops_at reverses r s pnl (inr lower) h =
      reverses s.current_max_daily_loss r.current_max_daily_loss pnl lower h

  -- Where the bot stops at some profit and loss, it stops at it after any further calls too, whatever
  -- ladders are set in between: the limit is never loosened. It takes that `a < b` and `p <= -b` give
  -- `p <= -a`, which numbers have, and which no NaN is in.
  pub stops_at-run :
      ((a b p : F) → f.lt a b ≡ true → f.le p (f.negate b) ≡ true → f.le p (f.negate a) ≡ true)
      → (r : RiskState F) (calls : List (Call F)) (pnl : F) → stops_at r pnl ≡ true
      → stops_at (run r calls) pnl ≡ true
  unfolding run
  stops_at-run reverses r [] pnl h = h
  stops_at-run reverses r (call ∷ calls) pnl h =
      stops_at-run reverses (step r call) calls pnl
        (Tightens-stops_at reverses r (step r call) pnl (step-Tightens r call) h)
