-- ===== src/Metrics/Journal.antt =====
-- `TradeJournalStore` of rust/crates/metrics_observability/src/lib.rs.
use ibkr_bot.Base.{
  ℕ, nat_eq, Bool, true, false, Option, some, none, List, [], ◌∷◌, ◌==◌, if◌then◌else◌,
}
use ibkr_bot.Base.Float.{Float}
use ibkr_bot.Core.Types.{SymbolId}
use ibkr_bot.Metrics.Decisions.{DecisionLog, push_bounded}

pub data ExitReason : Type 0 where
  target stop manual luld_halt regime_change tape_reversal session_close unknown : ExitReason

pub data LossAttributionCode : Type 0 where
  entry_model context guards execution risk market_data : LossAttributionCode

pub record TradeJournal (F : Type 0) : Type 0 where
  pub symbol_id : SymbolId
  pub entry_ts : ℕ
  pub exit_ts : Option ℕ
  pub entry_decision : DecisionLog F
  pub entry_price : F
  pub exit_price : Option F
  pub shares : ℕ
  pub avg_fill_price : F
  pub fill_count : ℕ
  pub gross_pnl : F
  pub total_fees : F
  pub actual_slippage : F
  pub net_pnl : F
  pub expected_slippage : F
  pub exit_reason : ExitReason
  pub loss_attribution : Option LossAttributionCode

pub record TradeJournalStore (F : Type 0) : Type 0 where
  pub trades : List (TradeJournal F)
  pub capacity : ℕ

-- How a trade ends.
pub record Closing (F : Type 0) : Type 0 where
  pub exit_ts : ℕ
  pub exit_price : F
  pub actual_slippage : F
  pub exit_reason : ExitReason
  pub loss_attribution : Option LossAttributionCode

unfoldable pub record_entry :
    {F : Type 0} → TradeJournalStore F → TradeJournal F → TradeJournalStore F
record_entry s journal = record s { trades = push_bounded s.capacity journal s.trades }

abbrev pub is_open : {F : Type 0} → SymbolId → TradeJournal F → Bool
is_open symbol t = elim t.exit_ts [ none ↦ t.symbol_id == symbol | some _ ↦ false ]

-- Whether the symbol has an open trade.
unfoldable pub any_open : {F : Type 0} → SymbolId → List (TradeJournal F) → Bool
any_open symbol [] = false
any_open symbol (t ∷ ts) = let rest = any_open symbol ts in if rest then true else is_open symbol t

module _ {F : Type 0} ⦃f : Float F⦄ where
  unfoldable pub finish : Closing F → TradeJournal F → TradeJournal F
  finish c t =
      let pnl = f.times (f.minus c.exit_price t.entry_price) (f.of_nat t.shares) in
      record t {
        exit_ts = some c.exit_ts;
        exit_price = some c.exit_price;
        actual_slippage = c.actual_slippage;
        exit_reason = c.exit_reason;
        loss_attribution = c.loss_attribution;
        gross_pnl = pnl;
        net_pnl = f.minus (f.minus pnl t.total_fees) c.actual_slippage;
      }

  -- The last open trade of the symbol is closed.
  unfoldable pub close_last : SymbolId → Closing F → List (TradeJournal F) → List (TradeJournal F)
  unfolding finish any_open
  close_last symbol c [] = []
  close_last symbol c (t ∷ ts) =
      let rest = close_last symbol c ts in
      if any_open symbol ts then t ∷ rest else (if is_open symbol t then finish c t else t) ∷ ts

  unfoldable pub close_trade : TradeJournalStore F → SymbolId → Closing F → TradeJournalStore F
  unfolding close_last
  close_trade s symbol c = record s { trades = close_last symbol c s.trades }
