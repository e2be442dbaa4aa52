-- ===== src/Oms/Sync.antt =====
-- `reconcile_state` of rust/crates/execution_engine/src/lib.rs: the broker's open orders are taken
-- over, then the local open orders that the broker did not list are cancelled.
use ibkr_bot.Base.{
  ℕ, String, Bool, false, Option, some, none, List, [], ◌∷◌, ◌==◌, if◌then◌else◌, ◌&&◌, not,
  contains, string_eq, nat_eq,
}
use ibkr_bot.Base.Map.{Map, lookup, insert, adjust, map_values}
use ibkr_bot.Core.Types.{Order, cancelled}
use ibkr_bot.Core.Events.{StateSyncData}
use ibkr_bot.Base.Int.{add_u64}
use ibkr_bot.Oms.Order.{Oms}
use ibkr_bot.Oms.Timeouts.{is_open}

abbrev pub is_listed : List String → Option String → Bool
is_listed ids none = false
is_listed ids (some bid) = contains ids bid

module _ {F : Type 0} where
  -- The three fields that an order takes from the broker's copy.
  unfoldable pub take_over : Order F → Order F → Order F
  take_over broker_order local_order = record local_order {
    status = broker_order.status;
    filled_qty = broker_order.filled_qty;
    avg_fill_price = broker_order.avg_fill_price;
  }

  -- An order that is found by its client id gets the broker's id, too.
  unfoldable pub adopt : Oms F → ℕ → String → Order F → Oms F
  unfolding take_over
  adopt o internal_id id broker_order = elim (lookup internal_id o.orders) [
    | none ↦ o
    | some local_order ↦ record o {
      orders =
          adjust internal_id (λ l. take_over broker_order (record l { broker_order_id = some id }))
            o.orders;
      broker_map = insert id internal_id o.broker_map;
    }
  ]

  -- An order that is not known is imported under a new id.
  unfoldable pub import : Oms F → String → Order F → Oms F
  import o id broker_order = record {
    orders = insert o.next_order_id (record broker_order { order_id = o.next_order_id }) o.orders;
    idempotency_cache =
        if not (broker_order.client_order_id == "")
        then insert broker_order.client_order_id o.next_order_id o.idempotency_cache
        else o.idempotency_cache;
    broker_map = insert id o.next_order_id o.broker_map;
    next_order_id = add_u64 o.next_order_id 1;
  }

  -- The body of the first loop for an order with the broker's id `id`.
  unfoldable pub sync_order : Oms F → String → Order F → Oms F
  unfolding adopt import take_over
  sync_order o id broker_order = elim (lookup id o.broker_map) [
    | some internal_id ↦ record o { orders = adjust internal_id (take_over broker_order) o.orders }
    | none ↦ elim (lookup broker_order.client_order_id o.idempotency_cache) [
      | some internal_id ↦ adopt o internal_id id broker_order
      | none ↦ import o id broker_order
    ]
  ]

  -- An order without a broker's id is passed over.
  unfoldable pub sync_by_id : Oms F → Order F → Option String → Oms F
  unfolding sync_order
  sync_by_id o b none = o
  sync_by_id o b (some id) = sync_order o id b

  -- The first loop.
  unfoldable pub sync_orders : Oms F → List (Order F) → Oms F
  sync_orders o [] = o
  sync_orders o (b ∷ bs) = sync_orders (sync_by_id o b b.broker_order_id) bs

  -- The set that the first loop collects.
  unfoldable pub broker_order_ids : List (Order F) → List String
  broker_order_ids [] = []
  broker_order_ids (b ∷ bs) =
      let rest = broker_order_ids bs in elim b.broker_order_id [ none ↦ rest | some id ↦ id ∷ rest ]

  abbrev pub is_stale : List String → Order F → Bool
  is_stale ids order = is_open order && not (is_listed ids order.broker_order_id)

  unfoldable pub cancel_stale : List String → ℕ → Order F → Order F
  cancel_stale ids id order =
      if is_stale ids order then record order { status = cancelled } else order

  unfoldable pub stale_ids : List String → Map ℕ (Order F) → List ℕ
  stale_ids ids [] = []
  stale_ids ids ((id, order) ∷ m) =
      if is_stale ids order then id ∷ stale_ids ids m else stale_ids ids m

  unfoldable pub reconcile_state : Oms F → StateSyncData F → Oms F × List ℕ
  unfolding sync_by_id sync_orders broker_order_ids cancel_stale stale_ids
  reconcile_state o sync_data =
      let ids = broker_order_ids sync_data.open_orders in
      let synced = sync_orders o sync_data.open_orders in
      (
        record synced { orders = map_values (cancel_stale ids) synced.orders },
        stale_ids ids synced.orders,
      )
