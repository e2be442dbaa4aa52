-- ===== src/Oms/Cancel.antt =====
-- The cancel flow of rust/crates/execution_engine/src/lib.rs: `cancel_order`, `mark_cancel_sent`,
-- `handle_cancel_ack`, `handle_cancel_reject`.
use ibkr_bot.Base.{ℕ, String, Bool, nat_eq, true, false, some, none, ◌==◌, if◌then◌else◌, ◌||◌}
use ibkr_bot.Base.Map.{lookup, adjust}
use ibkr_bot.Base.Result.{Result, ok, err}
use ibkr_bot.Core.Types.{
  Order, OrderStatus, live, filled, cancelled, rejected, pending_cancel, cancel_sent,
  cancel_rejected, cancel_timeout, status_eq,
}
use ibkr_bot.Oms.Order.{Oms}

-- The statuses at which the three reports on a cancel change an order.
abbrev pub awaits_sending : OrderStatus → Bool
awaits_sending s = s == pending_cancel

abbrev pub awaits_ack : OrderStatus → Bool
awaits_ack s = s == pending_cancel || s == cancel_sent || s == cancel_timeout

abbrev pub awaits_refusal : OrderStatus → Bool
awaits_refusal s = s == pending_cancel || s == cancel_sent

module _ {F : Type 0} where
  unfoldable pub set_status : OrderStatus → ℕ → Order F → Order F
  set_status status timestamp_us order = record order { status = status; updated_at = timestamp_us }

  -- The `match order.status` of `cancel_order`.
  unfoldable pub cancel_by_status : Oms F → ℕ → ℕ → OrderStatus → Oms F × Result String Bool
  cancel_by_status o id ts OrderStatus.pending =
      (record o { orders = adjust id (set_status pending_cancel ts) o.orders }, ok true)
  cancel_by_status o id ts live =
      (record o { orders = adjust id (set_status pending_cancel ts) o.orders }, ok true)
  cancel_by_status o id ts pending_cancel = (o, ok false)
  cancel_by_status o id ts cancel_sent = (o, ok false)
  cancel_by_status o id ts filled = (o, err "Order in terminal state, cannot cancel")
  cancel_by_status o id ts cancelled = (o, err "Order in terminal state, cannot cancel")
  cancel_by_status o id ts rejected = (o, err "Order in terminal state, cannot cancel")
  cancel_by_status o id ts cancel_rejected = (o, err "Order in terminal state, cannot cancel")
  cancel_by_status o id ts cancel_timeout = (o, err "Order in terminal state, cannot cancel")

  unfoldable pub cancel_order : Oms F → ℕ → ℕ → Oms F × Result String Bool
  unfolding cancel_by_status set_status
  cancel_order o order_id timestamp_us = elim (lookup order_id o.orders) [
    | none ↦ (o, err "Order not found")
    | some order ↦ cancel_by_status o order_id timestamp_us order.status
  ]

  -- `if <status is one of these> { order.status = next; order.updated_at = ts }`.
  unfoldable pub advance_if : (OrderStatus → Bool) → OrderStatus → ℕ → Order F → Order F
  unfolding set_status
  advance_if test next ts order = if test order.status then set_status next ts order else order

  unfoldable pub mark_cancel_sent : Oms F → ℕ → ℕ → Oms F
  unfolding advance_if
  mark_cancel_sent o order_id ts = record o {
    orders = adjust order_id (advance_if awaits_sending cancel_sent ts) o.orders;
  }

  unfoldable pub handle_cancel_ack : Oms F → ℕ → ℕ → Oms F
  unfolding advance_if
  handle_cancel_ack o order_id ts = record o {
    orders = adjust order_id (advance_if awaits_ack cancelled ts) o.orders;
  }

  -- The reason is not read.
  unfoldable pub handle_cancel_reject : Oms F → ℕ → String → ℕ → Oms F
  unfolding advance_if
  handle_cancel_reject o order_id reason ts = record o {
    orders = adjust order_id (advance_if awaits_refusal cancel_rejected ts) o.orders;
  }
