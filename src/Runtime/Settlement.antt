-- ===== src/Runtime/Settlement.antt =====
-- What the risk task sends and books for a fill: rust/crates/app_runtime/src/lib.rs.
use ibkr_bot.Base.{
  ℕ, nat_eq, Bool, true, some, ◌≡◌, ◌≤◌, ◌<◌, ◌*◌, ◌/◌, ◌&&◌, ◌||◌, refl, arith, inl, inr, All, ltb,
  Bool-cases,
}
use ibkr_bot.Base.Float.{Float}
use ibkr_bot.Base.Int.{abs, is_positive}
use ibkr_bot.Core.Types.{SymbolId, ask, side_eq}
use ibkr_bot.Core.Events.{FillData, OmsCommand, new_order, cancel_order}
use ibkr_bot.Core.Accounting.{compute_unrealized_pnl}
use ibkr_bot.Runtime.Positions.{RiskPosition}
use ibkr_bot.Runtime.RiskTask.{partial_exit}

all_left : (a b c d : Bool) → (a && b && c && d) ≡ true → a ≡ true
all_left a b c d h = ground arith

all_right : (a b c d : Bool) → (a && b && c && d) ≡ true → d ≡ true
all_right a b c d h = ground arith

module _ {F : Type 0} ⦃f : Float F⦄ where
  -- The sale at the fill's price of some shares, at most half of a long position.
  abbrev pub IsPartialExit : SymbolId → FillData F → RiskPosition F → OmsCommand F → Type 0
  IsPartialExit symbol report p (cancel_order r) = ⊥
  IsPartialExit symbol report p (new_order order) =
      (order.symbol_id ≡ symbol)
      × (order.side ≡ ask)
      × (order.limit_price ≡ some report.price)
      × (is_positive p.qty ≡ true)
      × (0 < order.qty)
      × (2 * order.qty ≤ abs p.qty)

  -- All that a fill makes the risk task send is the sale, at the fill's price, of at least one share
  -- and at most half of a long position.
  pub partial_exit-IsPartialExit :
      (symbol : SymbolId) (ts_src : ℕ) (report : FillData F) (p : RiskPosition F)
      → All (IsPartialExit symbol report p) (partial_exit symbol ts_src report p)
  unfolding partial_exit
  partial_exit-IsPartialExit symbol ts_src report p =
      let gross = compute_unrealized_pnl p.qty p.avg_cost report.price in
      let move = f.over (f.minus report.price p.avg_cost) p.avg_cost in
      let gained = f.le (f.lit 50 0) gross || f.le (f.lit 10 2) move in
      let long = is_positive p.qty in
      let priced = f.lt (f.lit 0 0) p.avg_cost in
      let some_shares = ltb 0 (abs p.qty / 2) in
      elim (Bool-cases (long && priced && gained && some_shares)) [
        | inl t ↦
            let is_long : long ≡ true = all_left long priced gained some_shares t in
            let is_some : some_shares ≡ true = all_right long priced gained some_shares t in
            rw (partial_exit, t) ((refl, refl, refl, is_long, ground arith, omega arith), tt)
        | inr t ↦ rw (partial_exit, t) tt
      ]
