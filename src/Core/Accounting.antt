-- ===== src/Core/Accounting.antt =====
-- Average cost and profit and loss: rust/crates/core_types/src/trade_accounting.rs. A position is an
-- `i32`; a cast of a `u32` to it wraps.
use ibkr_bot.Base.{ℕ, nat_eq, Bool, ◌==◌, ◌&&◌, ◌||◌, if◌then◌else◌}
use ibkr_bot.Base.Float.{Float}
use ibkr_bot.Base.Int.{ℤ, as_i32, abs, is_positive, is_negative, is_zero, leb_ℤ, add_u32}
use ibkr_bot.Core.Types.{bid, ask, side_eq}
use ibkr_bot.Core.Events.{FillData}

abbrev pub min_ℤ : ℤ → ℤ → ℤ
min_ℤ a b = if leb_ℤ a b then a else b

-- `abs` of an `i32`, which wraps at the least.
abbrev pub abs_i32 : ℤ → ℤ
abs_i32 n = as_i32 (abs n)

module _ {F : Type 0} ⦃f : Float F⦄ where
  -- `n as f64` of an `i32`.
  abbrev pub of_int : ℤ → F
  of_int n = if is_negative n then f.negate (f.of_nat (abs n)) else f.of_nat (abs n)

  unfoldable pub compute_weighted_avg_cost : ℕ → F → ℕ → F → F
  compute_weighted_avg_cost current_qty current_avg_cost new_qty new_price =
      let total_cost =
        f.plus (f.times (f.of_nat current_qty) current_avg_cost)
          (f.times (f.of_nat new_qty) new_price) in
      if current_qty == 0
      then new_price
      else f.over total_cost (f.of_nat (add_u32 current_qty new_qty))

  unfoldable pub is_closing : ℤ → FillData F → Bool
  is_closing position_qty close_fill =
      is_positive position_qty && close_fill.side == ask
      || is_negative position_qty && close_fill.side == bid

  unfoldable pub compute_realized_pnl : ℤ → F → FillData F → F
  unfolding is_closing
  compute_realized_pnl position_qty position_avg_cost close_fill =
      let qty_to_close = min_ℤ (as_i32 close_fill.size) (abs_i32 position_qty) in
      let realized_per_share =
        if is_positive position_qty
        then f.minus close_fill.price position_avg_cost
        else f.minus position_avg_cost close_fill.price in
      if is_closing position_qty close_fill
      then f.times realized_per_share (of_int qty_to_close)
      else f.lit 0 0

  unfoldable pub compute_unrealized_pnl : ℤ → F → F → F
  compute_unrealized_pnl position_qty position_avg_cost current_price =
      if is_zero position_qty
      then f.lit 0 0
      else if is_positive position_qty
      then f.times (f.minus current_price position_avg_cost) (of_int position_qty)
      else f.times (f.minus position_avg_cost current_price) (of_int (abs_i32 position_qty))
