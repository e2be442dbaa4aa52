-- ===== src/Runtime/Agree.antt =====
-- The three ledgers of positions, of the tape engine, of the OMS task and of the risk task:
-- rust/crates/tape_engine/src/lib.rs and rust/crates/app_runtime/src/lib.rs.
use mathlib.Core.Path.{ap₂, subst}
use ibkr_bot.Base.{nat_eq, ◌≡◌, ◌∙◌, ap, sym, arith, if◌then◌else◌}
use ibkr_bot.Base.Float.{Float}
use ibkr_bot.Core.Types.{SymbolId, side_eq}
use ibkr_bot.Core.Events.{FillData}
use ibkr_bot.Core.Accounting.{compute_realized_pnl}
use ibkr_bot.Tape.State.{SymbolState, TapeEngine, state_or_default}
use ibkr_bot.Tape.Ledger.{
  signed_fill_size, same_side, flipped, position_after, avg_cost_after, reduces,
}
use ibkr_bot.Tape.Events.{fill_state, process_fill}
use ibkr_bot.Tape.Position.{process_fill-state}
use ibkr_bot.Runtime.Positions.{OmsPosition, RiskPosition, oms_fill, risk_fill, trade_pnl}

module _ {F : Type 0} ⦃f : Float F⦄ where
  pub record Agrees (s : SymbolState F) (o : OmsPosition F) (r : RiskPosition F) : Type 0 where
    pub oms_qty : o.qty ≡ s.position
    pub oms_cost : o.avg_cost ≡ s.avg_cost
    pub risk_qty : r.qty ≡ s.position
    pub risk_cost : r.avg_cost ≡ s.avg_cost
    pub realized : r.realized_pnl ≡ s.realized_pnl

  oms_qty-fill :
      (o : OmsPosition F) (fill : FillData F) → (oms_fill o fill).qty ≡ position_after o.qty fill
  unfolding oms_fill position_after signed_fill_size
  oms_qty-fill o fill = ground arith

  oms_cost-fill :
      (o : OmsPosition F) (fill : FillData F)
      → (oms_fill o fill).avg_cost ≡ avg_cost_after o.qty o.avg_cost fill
  unfolding oms_fill avg_cost_after signed_fill_size same_side flipped
  oms_cost-fill o fill = ground arith

  risk_qty-fill :
      (r : RiskPosition F) (fill : FillData F) → (risk_fill r fill).qty ≡ position_after r.qty fill
  unfolding risk_fill position_after signed_fill_size
  risk_qty-fill r fill = ground arith

  risk_cost-fill :
      (r : RiskPosition F) (fill : FillData F)
      → (risk_fill r fill).avg_cost ≡ avg_cost_after r.qty r.avg_cost fill
  unfolding risk_fill avg_cost_after signed_fill_size same_side flipped
  risk_cost-fill r fill = ground arith

  realized-fill :
      (r : RiskPosition F) (fill : FillData F)
      → (risk_fill r fill).realized_pnl ≡ (
          if reduces r.qty fill
          then f.plus r.realized_pnl (compute_realized_pnl r.qty r.avg_cost fill)
          else r.realized_pnl)
  unfolding risk_fill trade_pnl reduces signed_fill_size same_side
  realized-fill r fill = ground arith

  Agrees-marked :
      (s : SymbolState F) (o : OmsPosition F) (r : RiskPosition F) (pnl : F)
      → Agrees s o r
      → Agrees (record s { current_unrealized_pnl = pnl }) o r
  Agrees-marked s o r pnl v = record {
    oms_qty = v.oms_qty;
    oms_cost = v.oms_cost;
    risk_qty = v.risk_qty;
    risk_cost = v.risk_cost;
    realized = v.realized;
  }

  Agrees-fill :
      (s : SymbolState F) (o : OmsPosition F) (r : RiskPosition F) (fill : FillData F)
      → Agrees s o r
      → Agrees (fill_state s fill) (oms_fill o fill) (risk_fill r fill)
  unfolding fill_state
  Agrees-fill s o r fill v = record {
    oms_qty = oms_qty-fill o fill ∙ ap (λ q. position_after q fill) v.oms_qty;
    oms_cost = oms_cost-fill o fill ∙ ap₂ (λ q x. avg_cost_after q x fill) v.oms_qty v.oms_cost;
    risk_qty = risk_qty-fill r fill ∙ ap (λ q. position_after q fill) v.risk_qty;
    risk_cost = risk_cost-fill r fill ∙ ap₂ (λ q x. avg_cost_after q x fill) v.risk_qty v.risk_cost;
    realized = realized-fill r fill ∙ rw (v.risk_qty, v.risk_cost, v.realized);
  }

  pub Agrees-process_fill :
      (e : TapeEngine F) (symbol : SymbolId) (o : OmsPosition F) (r : RiskPosition F)
      (fill : FillData F)
      → Agrees (state_or_default e.symbol_states symbol) o r
      → Agrees
          (state_or_default (process_fill e symbol fill).1.symbol_states symbol)
          (oms_fill o fill)
          (risk_fill r fill)
  Agrees-process_fill e symbol o r fill v =
      subst (λ s. Agrees s (oms_fill o fill) (risk_fill r fill))
        (sym (process_fill-state e symbol fill))
        (Agrees-marked _ _ _ _ (Agrees-fill (state_or_default e.symbol_states symbol) o r fill v))
