-- ===== src/Oms/Tests.antt =====
-- Runs of the order system at concrete inputs, after the unit tests of
-- rust/crates/execution_engine/src/lib.rs, and the theorems at such inputs.
use ibkr_bot.Base.{ℕ, true, none, some, List, [], ◌∷◌, ◌≡◌, ◌↔◌, refl, arith, nat_eq, string_eq}
use ibkr_bot.Base.Map.{lookup, insert, Entries, adjust}
use ibkr_bot.Base.Float.{Decimal, decimal_float}
use ibkr_bot.Base.Result.{ok}
use ibkr_bot.Core.Types.{Order, OrderRequest, bid, limit, gtc, OrderStatus, live, filled, cancelled}
use ibkr_bot.Core.Events.{FillData, StateSyncData}
use ibkr_bot.Oms.Order.{Oms, new, place_order, handle_fill, first_order}
use ibkr_bot.Oms.Cancel.{cancel_order, mark_cancel_sent, handle_cancel_ack}
use ibkr_bot.Oms.Timeouts.{is_open}
use ibkr_bot.Oms.Sync.{reconcile_state, broker_order_ids}
use ibkr_bot.Oms.History.{Call, places, acks, cancels, reconciles, step, run}
use ibkr_bot.Oms.Ids.{place_order_idempotent}
use ibkr_bot.Oms.Valid.{IsValid}
use ibkr_bot.Oms.Steps.{run-new-IsValid}
use ibkr_bot.Oms.Flow.{MovedAt, step-MovedAt, cancel_order-eq-ok_iff}
use ibkr_bot.Oms.Fills.{Holds, Counted, handle_fills, handle_fills_lem, cancel_lost_by_partial_fill}
use ibkr_bot.Oms.Reconcile.{IsListed, reconcile_state-IsListed}
use ibkr_bot.Oms.Matched.{client_of, first_key, or_else, client_of-reconcile_state}

abbrev dollars : ℕ → Decimal
dollars n = decimal_float.lit n 0

abbrev request : OrderRequest Decimal
request = record {
  symbol_id = 1;
  side = bid;
  qty = 100;
  order_type = limit;
  limit_price = some (dollars 10);
  stop_price = none;
  tif = gtc;
  idempotency_key = "key1";
  take_profit_price = none;
  stop_loss_price = none;
}

abbrev fill_of : ℕ → FillData Decimal
fill_of n = record { order_id = 1; price = dollars 10; size = n; side = bid; liquidity = 0 }

-- The order of `request`, placed at time 1000.
abbrev placed : Oms Decimal
placed = (place_order new request 1000).0

abbrev broker_copy : Order Decimal
broker_copy = record (first_order request 9 1000) { broker_order_id = some "B1"; status = live }

abbrev sync_data : StateSyncData Decimal
sync_data = record { open_orders = broker_copy ∷ []; positions = [] }

abbrev calls : List (Call Decimal)
calls = acks 1 "B7" ∷ cancels 1 1500 ∷ reconciles sync_data ∷ []

status_of : Oms Decimal → ℕ → List OrderStatus
status_of o id = elim (lookup id o.orders) [ none ↦ [] | some order ↦ order.status ∷ [] ]

-- `test_handle_fill`.
two_fills :
    (status_of (handle_fill placed (fill_of 50) 1100) 1 ≡ live ∷ [])
    × (status_of (handle_fill (handle_fill placed (fill_of 50) 1100) (fill_of 50) 1200) 1
        ≡ filled ∷ [])
unfolding status_of place_order handle_fill lookup insert adjust
two_fills = (refl, refl)

-- `test_cancel_flow_success`.
cancel_flow :
    status_of (handle_cancel_ack (mark_cancel_sent (cancel_order placed 1 2000).0 1 2500) 1 3000) 1
    ≡ cancelled ∷ []
unfolding status_of place_order cancel_order mark_cancel_sent handle_cancel_ack lookup insert adjust
cancel_flow = refl

place_order_idempotent_example :
    place_order (run placed calls) request 2000 ≡ (run placed calls, ok 1)
unfolding place_order lookup
place_order_idempotent_example =
    place_order_idempotent {F = Decimal} new request request 1000 2000 1 calls refl refl

run-new-IsValid_example : IsValid (run new (places request 1000 ∷ calls))
run-new-IsValid_example = run-new-IsValid (places request 1000 ∷ calls) (omega arith)

placed-IsValid : IsValid placed
unfolding run step
placed-IsValid = run-new-IsValid (places request 1000 ∷ []) (omega arith)

step-MovedAt_example :
    MovedAt (lookup 1 placed.orders) (lookup 1 (step placed (cancels 1 2000)).orders)
step-MovedAt_example = step-MovedAt placed (cancels 1 2000) 1 refl

cancel_order-eq-ok_iff_example :
    ((cancel_order placed 1 2000).1 ≡ ok true)
    ↔ ((order : Order Decimal) × (lookup 1 placed.orders ≡ some order) × (is_open order ≡ true))
cancel_order-eq-ok_iff_example = cancel_order-eq-ok_iff placed 1 2000

handle_fills_lem_example :
    Holds
      (handle_fills placed ((fill_of 50, 1100) ∷ (fill_of 50, 1200) ∷ []))
      1
      (Counted (first_order request 1 1000) 100)
unfolding place_order lookup insert first_order
handle_fills_lem_example =
    handle_fills_lem placed 1 (fill_of 50) 1100 ((fill_of 50, 1200) ∷ [])
      (first_order request 1 1000) refl refl (refl, tt)

cancel_lost_by_partial_fill_example :
    Holds
      (handle_cancel_ack (handle_fill (cancel_order placed 1 2000).0 (fill_of 50) 2500) 1 3000)
      1
      (λ after. after.status ≡ live)
unfolding place_order cancel_order lookup insert first_order
cancel_lost_by_partial_fill_example =
    cancel_lost_by_partial_fill placed 2000 2500 3000 (fill_of 50) (first_order request 1 1000) refl
      refl (omega arith)

reconcile_state-IsListed_example :
    Entries (λ id order. IsListed ("B1" ∷ []) order) (reconcile_state placed sync_data).0.orders
unfolding broker_order_ids
reconcile_state-IsListed_example = reconcile_state-IsListed placed sync_data

client_of-reconcile_state_example :
    client_of (reconcile_state placed sync_data).0 "B1"
    ≡ or_else (client_of placed "B1") (first_key (broker_copy ∷ []) "B1")
unfolding place_order lookup
client_of-reconcile_state_example =
    client_of-reconcile_state placed sync_data "B1" (omega arith) placed-IsValid
