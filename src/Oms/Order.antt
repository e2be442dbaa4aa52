-- ===== src/Oms/Order.antt =====
-- The system's state, `place_order` and the broker's reports: `handle_ack`, `handle_fill` and
-- `handle_status` of rust/crates/execution_engine/src/lib.rs.
use ibkr_bot.Base.{ℕ, String, nat_eq, string_eq, some, none, [], ltb, leb, ◌==◌, if◌then◌else◌, not}
use ibkr_bot.Base.Map.{Map, lookup, insert, adjust}
use ibkr_bot.Base.Result.{Result, ok}
use ibkr_bot.Base.Float.{Float}
use ibkr_bot.Base.Int.{add_u32, add_u64}
use ibkr_bot.Core.Types.{Order, OrderRequest, OrderStatus, live, filled, status_eq}
use ibkr_bot.Core.Events.{FillData, OrderStatusData}

pub record Oms (F : Type 0) : Type 0 where
  pub orders : Map ℕ (Order F)
  pub idempotency_cache : Map String ℕ
  pub broker_map : Map String ℕ
  pub next_order_id : ℕ

abbrev pub new : {F : Type 0} → Oms F
new = record { orders = []; idempotency_cache = []; broker_map = []; next_order_id = 1 }

module _ {F : Type 0} where
  -- `if order.status == Pending { order.status = Live }`, with the broker's id set.
  unfoldable pub acknowledge : String → Order F → Order F
  acknowledge broker_id order = record order {
    broker_order_id = some broker_id;
    status = if order.status == OrderStatus.pending then live else order.status;
  }

  unfoldable pub handle_ack : Oms F → ℕ → String → Oms F
  handle_ack o internal_id broker_id = elim (lookup internal_id o.orders) [
    | none ↦ o
    | some order ↦ record o {
      orders = adjust internal_id (acknowledge broker_id) o.orders;
      broker_map = insert broker_id internal_id o.broker_map;
    }
  ]

module _ {F : Type 0} ⦃f : Float F⦄ where
  open f use {lit, of_nat, plus, times, over, lt}

  unfoldable pub first_order : OrderRequest F → ℕ → ℕ → Order F
  first_order request order_id timestamp_us = record {
    order_id = order_id;
    client_order_id = request.idempotency_key;
    broker_order_id = none;
    symbol_id = request.symbol_id;
    side = request.side;
    qty = request.qty;
    filled_qty = 0;
    avg_fill_price = lit 0 0;
    order_type = request.order_type;
    limit_price = request.limit_price;
    stop_price = request.stop_price;
    status = OrderStatus.pending;
    created_at = timestamp_us;
    updated_at = timestamp_us;
  }

  unfoldable pub place_order : Oms F → OrderRequest F → ℕ → Oms F × Result String ℕ
  unfolding first_order
  place_order o request timestamp_us = elim (lookup request.idempotency_key o.idempotency_cache) [
    | some existing_id ↦ (o, ok existing_id)
    | none ↦ (
      record {
        orders = insert o.next_order_id (first_order request o.next_order_id timestamp_us) o.orders;
        idempotency_cache = insert request.idempotency_key o.next_order_id o.idempotency_cache;
        broker_map = o.broker_map;
        next_order_id = add_u64 o.next_order_id 1;
      },
      ok o.next_order_id,
    )
  ]

  -- The body of `handle_fill`: the average price, then the status by the filled quantity.
  unfoldable pub fill_order : FillData F → ℕ → Order F → Order F
  fill_order fill timestamp_us order =
      let total_cost =
        plus (times (of_nat order.filled_qty) order.avg_fill_price)
          (times (of_nat fill.size) fill.price) in
      let total = add_u32 order.filled_qty fill.size in
      record order {
        updated_at = timestamp_us;
        filled_qty = total;
        avg_fill_price =
            if ltb 0 total then over total_cost (of_nat total) else order.avg_fill_price;
        status =
            if leb order.qty total
            then filled
            else (if not (order.status == live) then live else order.status);
      }

  unfoldable pub handle_fill : Oms F → FillData F → ℕ → Oms F
  unfolding fill_order
  handle_fill o fill timestamp_us = record o {
    orders = adjust fill.order_id (fill_order fill timestamp_us) o.orders;
  }

  unfoldable pub report_order : OrderStatusData F → ℕ → Order F → Order F
  report_order status timestamp_us order = record order {
    updated_at = timestamp_us;
    status = status.status;
    filled_qty = status.filled_qty;
    avg_fill_price =
        if lt (lit 0 0) status.avg_fill_price then status.avg_fill_price else order.avg_fill_price;
  }

  unfoldable pub handle_status : Oms F → OrderStatusData F → ℕ → Oms F
  unfolding report_order
  handle_status o status timestamp_us = record o {
    orders = adjust status.order_id (report_order status timestamp_us) o.orders;
  }
