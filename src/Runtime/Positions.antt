-- ===== src/Runtime/Positions.antt =====
-- The positions that the OMS task and the risk task keep from the fills:
-- rust/crates/app_runtime/src/lib.rs.
use ibkr_bot.Base.{Bool, ◌==◌, ◌&&◌, ◌||◌, if◌then◌else◌}
use ibkr_bot.Base.Float.{Float}
use ibkr_bot.Base.Int.{ℤ, pos, abs, is_zero, is_positive, is_negative, as_i32, add_i32, neg_i32}
use ibkr_bot.Core.Types.{bid, side_eq}
use ibkr_bot.Core.Events.{FillData}
use ibkr_bot.Core.Accounting.{compute_weighted_avg_cost, compute_realized_pnl}

pub record OmsPosition (F : Type 0) : Type 0 where
  pub avg_cost : F
  pub qty : ℤ

pub record RiskPosition (F : Type 0) : Type 0 where
  pub avg_cost : F
  pub qty : ℤ
  pub realized_pnl : F

abbrev pub fill_sign : {F : Type 0} → FillData F → ℤ
fill_sign fill = if fill.side == bid then as_i32 fill.size else neg_i32 (as_i32 fill.size)

abbrev pub on_same_side : ℤ → ℤ → Bool
on_same_side qty signed =
    is_positive qty && is_positive signed || is_negative qty && is_negative signed

abbrev pub turned : ℤ → ℤ → Bool
turned prev_qty qty =
    is_positive prev_qty && is_negative qty || is_negative prev_qty && is_positive qty

module _ {F : Type 0} ⦃f : Float F⦄ where
  abbrev pub new_oms_position : OmsPosition F
  new_oms_position = record { avg_cost = f.lit 0 0; qty = pos 0 }

  abbrev pub new_risk_position : RiskPosition F
  new_risk_position = record { avg_cost = f.lit 0 0; qty = pos 0; realized_pnl = f.lit 0 0 }

  -- The OMS task's handling of a fill, without the log of the slippage.
  unfoldable pub oms_fill : OmsPosition F → FillData F → OmsPosition F
  oms_fill state fill =
      let signed = fill_sign fill in
      let qty = add_i32 state.qty signed in
      if is_zero state.qty
      then record { avg_cost = fill.price; qty = signed }
      else if on_same_side state.qty signed
      then record {
        avg_cost = compute_weighted_avg_cost (abs state.qty) state.avg_cost fill.size fill.price;
        qty = qty;
      }
      else if is_zero qty
      then record { avg_cost = f.lit 0 0; qty = qty }
      else if turned state.qty qty
      then record { avg_cost = fill.price; qty = qty }
      else record { avg_cost = state.avg_cost; qty = qty }

  -- What the risk task adds to the realised profit: nothing for a fill that opens or increases.
  unfoldable pub trade_pnl : RiskPosition F → FillData F → F → F
  unfolding compute_realized_pnl
  trade_pnl state fill total =
      if is_zero state.qty
      then total
      else if on_same_side state.qty (fill_sign fill)
      then total
      else f.plus total (compute_realized_pnl state.qty state.avg_cost fill)

  -- The risk task's handling of the position.
  unfoldable pub risk_fill : RiskPosition F → FillData F → RiskPosition F
  unfolding trade_pnl
  risk_fill state fill =
      let signed = fill_sign fill in
      let qty = add_i32 state.qty signed in
      let realized = trade_pnl state fill state.realized_pnl in
      if is_zero state.qty
      then record { avg_cost = fill.price; qty = signed; realized_pnl = realized }
      else if on_same_side state.qty signed
      then record {
        avg_cost = compute_weighted_avg_cost (abs state.qty) state.avg_cost fill.size fill.price;
        qty = qty;
        realized_pnl = realized;
      }
      else if is_zero qty
      then record { avg_cost = f.lit 0 0; qty = qty; realized_pnl = realized }
      else if turned state.qty qty
      then record { avg_cost = fill.price; qty = qty; realized_pnl = realized }
      else record { avg_cost = state.avg_cost; qty = qty; realized_pnl = realized }
