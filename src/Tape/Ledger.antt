-- ===== src/Tape/Ledger.antt =====
-- The position and the average cost that a fill leaves, in `process_fill` of
-- rust/crates/tape_engine/src/lib.rs.
use ibkr_bot.Base.{Bool, ◌==◌, ◌&&◌, ◌||◌, if◌then◌else◌, true, false}
use ibkr_bot.Base.Float.{Float}
use ibkr_bot.Base.Int.{ℤ, abs, is_zero, is_positive, is_negative, as_i32, add_i32, neg_i32}
use ibkr_bot.Core.Types.{bid, side_eq}
use ibkr_bot.Core.Events.{FillData}
use ibkr_bot.Core.Accounting.{compute_weighted_avg_cost}

unfoldable pub signed_fill_size : {F : Type 0} → FillData F → ℤ
signed_fill_size fill =
    let fill_size = as_i32 fill.size in if fill.side == bid then fill_size else neg_i32 fill_size

unfoldable pub same_side : ℤ → ℤ → Bool
same_side a b = is_positive a && is_positive b || is_negative a && is_negative b

unfoldable pub flipped : ℤ → ℤ → Bool
flipped before after =
    is_positive before && is_negative after || is_negative before && is_positive after

module _ {F : Type 0} ⦃f : Float F⦄ where
  unfoldable pub avg_cost_after : ℤ → F → FillData F → F
  unfolding signed_fill_size same_side flipped
  avg_cost_after position avg_cost fill =
      let after = add_i32 position (signed_fill_size fill) in
      if is_zero position
      then fill.price
      else if same_side position (signed_fill_size fill)
      then compute_weighted_avg_cost (abs position) avg_cost fill.size fill.price
      else if is_zero after
      then f.lit 0 0
      else if flipped position after
      then fill.price
      else avg_cost

  -- The position after a fill: `signed_fill_size` from a flat one, else the sum.
  unfoldable pub position_after : ℤ → FillData F → ℤ
  unfolding signed_fill_size
  position_after position fill =
      if is_zero position then signed_fill_size fill else add_i32 position (signed_fill_size fill)

  -- Whether the fill reduces the position, and so realises a profit.
  unfoldable pub reduces : ℤ → FillData F → Bool
  unfolding same_side signed_fill_size
  reduces position fill =
      if is_zero position
      then false
      else if same_side position (signed_fill_size fill)
      then false
      else true
