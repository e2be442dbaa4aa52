-- ===== src/Oms/History.antt =====
-- A client's calls on the order system, and runs of them: the public methods of
-- `OrderManagementSystem` that change its state (rust/crates/execution_engine/src/lib.rs).
use ibkr_bot.Base.{ℕ, String, List, [], ◌∷◌, ◌+◌, length}
use ibkr_bot.Base.Float.{Float}
use ibkr_bot.Core.Types.{OrderRequest}
use ibkr_bot.Core.Events.{FillData, OrderStatusData, StateSyncData}
use ibkr_bot.Oms.Order.{Oms, place_order, handle_ack, handle_fill, handle_status}
use ibkr_bot.Oms.Cancel.{cancel_order, mark_cancel_sent, handle_cancel_ack, handle_cancel_reject}
use ibkr_bot.Oms.Timeouts.{check_cancel_timeouts}
use ibkr_bot.Oms.Sync.{reconcile_state}

pub data Call (F : Type 0) : Type 0 where
  places : OrderRequest F → ℕ → Call F
  acks : ℕ → String → Call F
  fills : FillData F → ℕ → Call F
  reports : OrderStatusData F → ℕ → Call F
  cancels : ℕ → ℕ → Call F
  marks_sent : ℕ → ℕ → Call F
  cancel_acks : ℕ → ℕ → Call F
  cancel_rejects : ℕ → String → ℕ → Call F
  expires : ℕ → ℕ → Call F
  reconciles : StateSyncData F → Call F

module _ {F : Type 0} ⦃f : Float F⦄ where
  unfoldable pub step : Oms F → Call F → Oms F
  step o (places request ts) = (place_order o request ts).0
  step o (acks id broker_id) = handle_ack o id broker_id
  step o (fills fill ts) = handle_fill o fill ts
  step o (reports status ts) = handle_status o status ts
  step o (cancels id ts) = (cancel_order o id ts).0
  step o (marks_sent id ts) = mark_cancel_sent o id ts
  step o (cancel_acks id ts) = handle_cancel_ack o id ts
  step o (cancel_rejects id reason ts) = handle_cancel_reject o id reason ts
  step o (expires now timeout) = (check_cancel_timeouts o now timeout).0
  step o (reconciles sync_data) = (reconcile_state o sync_data).0

  unfoldable pub run : Oms F → List (Call F) → Oms F
  run o [] = o
  run o (c ∷ cs) = run (step o c) cs

module _ {F : Type 0} where
  -- The ids that a call may hand out.
  abbrev pub cost : Call F → ℕ
  cost (places request ts) = 1
  cost (reconciles sync_data) = length sync_data.open_orders
  cost _ = 0

  abbrev pub costs : List (Call F) → ℕ
  costs [] = 0
  costs (c ∷ cs) = cost c + costs cs
