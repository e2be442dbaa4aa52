-- ===== src/Oms/Steps.antt =====
-- Every call keeps the order system valid: rust/crates/execution_engine/src/lib.rs.
use ibkr_bot.Base.{
  ℕ, suc, String, string_eq, nat_eq, Bool, Option, some, none, List, [], ◌∷◌, ◌+◌, ◌^◌, ◌<◌, ◌≡◌,
  refl, arith, ◌==◌, inl, inr, Bool-cases, Option-cases, length,
}
use ibkr_bot.Base.Map.{lookup, insert, Entries-insert}
use ibkr_bot.Base.Float.{Float}
use ibkr_bot.Core.Types.{Order, OrderRequest, OrderStatus, live}
use ibkr_bot.Core.Events.{StateSyncData}
use ibkr_bot.Oms.Order.{
  Oms, new, place_order, first_order, handle_ack, acknowledge, handle_fill, handle_status,
}
use ibkr_bot.Oms.Cancel.{
  cancel_order, cancel_by_status, mark_cancel_sent, handle_cancel_ack, handle_cancel_reject,
  advance_if,
}
use ibkr_bot.Oms.Timeouts.{check_cancel_timeouts, expire_cancel}
use ibkr_bot.Oms.Sync.{
  reconcile_state, sync_orders, sync_by_id, sync_order, adopt, import, take_over, broker_order_ids,
  cancel_stale,
}
use ibkr_bot.Oms.History.{
  Call, places, acks, fills, reports, cancels, marks_sent, cancel_acks, cancel_rejects, expires,
  reconciles, step, run, cost, costs,
}
use ibkr_bot.Oms.Valid.{
  IsValid, Keeps, adjust-IsValid, map_values-IsValid, grow-IsValid, grow_uncached-IsValid,
  insert-mapped, insert-mapped_new,
}

abbrev pub NextBelow : {F : Type 0} → Oms F → ℕ → Type 0
NextBelow o n = o.next_order_id + n < 2 ^ 64

module _ {F : Type 0} where
  -- An id that is known gets a new broker's id.
  point-IsValid :
      (o : Oms F) (id : ℕ) (b : String) (order : Order F)
      → lookup id o.orders ≡ some order
      → IsValid o
      → IsValid (record o { broker_map = insert b id o.broker_map })
  point-IsValid o id b order found v = record {
    named = v.named;
    cached = v.cached;
    mapped = Entries-insert _ b id o.broker_map (rw found) v.mapped;
  }

  import-IsValid :
      (o : Oms F) (id : String) (order : Order F)
      → NextBelow o 1
      → IsValid o
      → IsValid (import o id order)
  unfolding import
  import-IsValid o id order room v =
      let order' : Order F = record order { order_id = o.next_order_id } in
      let brokers = insert-mapped_new o id order' v in
      elim (Bool-cases (order.client_order_id == "")) [
        | inl e ↦ rw (e, import) (grow_uncached-IsValid o order' _ _ (omega arith) refl brokers v)
        | inr e ↦ rw (e, import) (grow-IsValid o order' _ _ (omega arith) refl brokers v)
      ]

  adopt-IsValid :
      (o : Oms F) (i : ℕ) (id : String) (order : Order F) → IsValid o → IsValid (adopt o i id order)
  unfolding adopt take_over
  adopt-IsValid o i id order v = elim (Option-cases (lookup i o.orders)) [
    | inl e ↦ rw (e, adopt) v
    | inr (l, e) ↦
        rw (e, adopt) (adjust-IsValid _ i _ (λ order'. (refl, refl)) (point-IsValid o i id l e v))
  ]

  sync_order-IsValid :
      (o : Oms F) (id : String) (b : Order F)
      → NextBelow o 1
      → IsValid o
      → IsValid (sync_order o id b)
  unfolding sync_order take_over
  sync_order-IsValid o id b room v = elim (Option-cases (lookup id o.broker_map)) [
    | inr (i, e) ↦ rw (e, sync_order) (adjust-IsValid o i _ (λ order. (refl, refl)) v)
    | inl e ↦ elim (Option-cases (lookup b.client_order_id o.idempotency_cache)) [
      | inl fresh ↦ rw (e, fresh, sync_order) (import-IsValid o id b room v)
      | inr (i, old) ↦ rw (e, old, sync_order) (adopt-IsValid o i id b v)
    ]
  ]

  -- Room for one more id is used up by one entry at most.
  sync_order-NextBelow :
      (n : ℕ) (o : Oms F) (id : String) (b : Order F)
      → NextBelow o (suc n)
      → NextBelow (sync_order o id b) n
  unfolding sync_order adopt import
  sync_order-NextBelow n o id b room = ground arith

  pub sync_by_id-NextBelow :
      (n : ℕ) (o : Oms F) (b : Order F) (id : Option String)
      → NextBelow o (suc n)
      → NextBelow (sync_by_id o b id) n
  unfolding sync_by_id
  sync_by_id-NextBelow n o b none room = omega arith
  sync_by_id-NextBelow n o b (some id) room = sync_order-NextBelow n o id b room

  sync_orders-NextBelow :
      (n : ℕ) (o : Oms F) (bs : List (Order F))
      → NextBelow o (length bs + n)
      → NextBelow (sync_orders o bs) n
  unfolding sync_orders
  sync_orders-NextBelow n o [] room = omega arith
  sync_orders-NextBelow n o (b ∷ bs) room =
      sync_orders-NextBelow n (sync_by_id o b b.broker_order_id) bs
        (sync_by_id-NextBelow (length bs + n) o b b.broker_order_id (omega arith))

  pub sync_by_id-IsValid :
      (o : Oms F) (b : Order F) (id : Option String)
      → NextBelow o 1
      → IsValid o
      → IsValid (sync_by_id o b id)
  unfolding sync_by_id
  sync_by_id-IsValid o b none room v = v
  sync_by_id-IsValid o b (some id) room v = sync_order-IsValid o id b room v

  sync_orders-IsValid :
      (o : Oms F) (bs : List (Order F))
      → NextBelow o (length bs)
      → IsValid o
      → IsValid (sync_orders o bs)
  unfolding sync_orders
  sync_orders-IsValid o [] room v = v
  sync_orders-IsValid o (b ∷ bs) room v =
      sync_orders-IsValid (sync_by_id o b b.broker_order_id) bs
        (sync_by_id-NextBelow (length bs) o b b.broker_order_id room)
        (sync_by_id-IsValid o b b.broker_order_id (omega arith) v)

  pub cancel_stale-Keeps : (ids : List String) (id : ℕ) → Keeps (cancel_stale {F = F} ids id)
  unfolding cancel_stale
  cancel_stale-Keeps ids id order = ground arith

  advance_if-Keeps :
      (test : OrderStatus → Bool) (next : OrderStatus) (ts : ℕ)
      → Keeps (advance_if {F = F} test next ts)
  unfolding advance_if
  advance_if-Keeps test next ts order = ground arith

  expire_cancel-Keeps : (now timeout id : ℕ) → Keeps (expire_cancel {F = F} now timeout id)
  unfolding expire_cancel
  expire_cancel-Keeps now timeout id order = ground arith

  handle_ack-IsValid : (o : Oms F) (id : ℕ) (b : String) → IsValid o → IsValid (handle_ack o id b)
  unfolding handle_ack acknowledge
  handle_ack-IsValid o id b v = elim (Option-cases (lookup id o.orders)) [
    | inl e ↦ rw (e, handle_ack) v
    | inr (order, e) ↦
        rw (e, handle_ack)
          (adjust-IsValid _ id _ (λ order'. (refl, refl)) (point-IsValid o id b order e v))
  ]

  reconcile_state-IsValid :
      (o : Oms F) (sync_data : StateSyncData F)
      → NextBelow o (length sync_data.open_orders)
      → IsValid o
      → IsValid (reconcile_state o sync_data).0
  unfolding reconcile_state
  reconcile_state-IsValid o sync_data room v =
      map_values-IsValid _ _ (cancel_stale-Keeps (broker_order_ids sync_data.open_orders))
        (sync_orders-IsValid o sync_data.open_orders room v)

  cancel_order-IsValid : (o : Oms F) (id ts : ℕ) → IsValid o → IsValid (cancel_order o id ts).0
  unfolding cancel_order
  cancel_order-IsValid o id ts v = elim (Option-cases (lookup id o.orders)) [
    | inl e ↦ rw (e, cancel_order) v
    | inr (order, e) ↦ rw (e, cancel_order) (by_status order.status)
  ]
    where
      by_status : (s : OrderStatus) → IsValid (cancel_by_status o id ts s).0
      by_status OrderStatus.pending = adjust-IsValid o id _ (λ order. (refl, refl)) v
      by_status live = adjust-IsValid o id _ (λ order. (refl, refl)) v
      by_status s = v

module _ {F : Type 0} ⦃f : Float F⦄ where
  place_order-IsValid :
      (o : Oms F) (r : OrderRequest F) (ts : ℕ)
      → NextBelow o 1
      → IsValid o
      → IsValid (place_order o r ts).0
  unfolding place_order first_order
  place_order-IsValid o r ts room v =
      elim (Option-cases (lookup r.idempotency_key o.idempotency_cache)) [
        | inr (id, e) ↦ rw (e, place_order) v
        | inl e ↦
            rw (e, place_order)
              (grow-IsValid o (first_order r o.next_order_id ts) o.broker_map _ (omega arith) refl
                (insert-mapped o _ v) v)
      ]

  -- The next id moves by no more than the call may hand out.
  pub step-NextBelow :
      (n : ℕ) (o : Oms F) (c : Call F) → NextBelow o (cost c + n) → NextBelow (step o c) n
  unfolding step
  step-NextBelow n o (places r ts) room = unfold place_order in ground arith
  step-NextBelow n o (acks i b) room = unfold handle_ack in ground arith
  step-NextBelow n o (cancels i ts) room = unfold cancel_order in ground arith
  step-NextBelow n o (fills fill ts) room = unfold handle_fill in omega arith
  step-NextBelow n o (reports status ts) room = unfold handle_status in omega arith
  step-NextBelow n o (marks_sent i ts) room = unfold mark_cancel_sent in omega arith
  step-NextBelow n o (cancel_acks i ts) room = unfold handle_cancel_ack in omega arith
  step-NextBelow n o (cancel_rejects i reason ts) room = unfold handle_cancel_reject in omega arith
  step-NextBelow n o (expires now timeout) room = unfold check_cancel_timeouts in omega arith
  step-NextBelow n o (reconciles sync_data) room =
      unfold reconcile_state in sync_orders-NextBelow n o sync_data.open_orders room

  pub step-IsValid :
      (n : ℕ) (o : Oms F) (c : Call F) → NextBelow o (cost c + n) → IsValid o → IsValid (step o c)
  unfolding step
  step-IsValid n o (places r ts) room v = place_order-IsValid o r ts (omega arith) v
  step-IsValid n o (acks i b) room v = handle_ack-IsValid o i b v
  step-IsValid n o (cancels i ts) room v = cancel_order-IsValid o i ts v
  step-IsValid n o (fills fill ts) room v =
      unfold handle_fill in adjust-IsValid o fill.order_id _ (λ order. (refl, refl)) v
  step-IsValid n o (reports status ts) room v =
      unfold handle_status in adjust-IsValid o status.order_id _ (λ order. (refl, refl)) v
  step-IsValid n o (marks_sent i ts) room v =
      unfold mark_cancel_sent in adjust-IsValid o i _ (advance_if-Keeps _ _ ts) v
  step-IsValid n o (cancel_acks i ts) room v =
      unfold handle_cancel_ack in adjust-IsValid o i _ (advance_if-Keeps _ _ ts) v
  step-IsValid n o (cancel_rejects i reason ts) room v =
      unfold handle_cancel_reject in adjust-IsValid o i _ (advance_if-Keeps _ _ ts) v
  step-IsValid n o (expires now timeout) room v =
      unfold check_cancel_timeouts in
      map_values-IsValid o _ (λ id. expire_cancel-Keeps now timeout id) v
  step-IsValid n o (reconciles sync_data) room v =
      reconcile_state-IsValid o sync_data (omega arith) v

  run-IsValid :
      (o : Oms F) (cs : List (Call F)) → NextBelow o (costs cs) → IsValid o → IsValid (run o cs)
  unfolding run
  run-IsValid o [] room v = v
  run-IsValid o (c ∷ cs) room v =
      run-IsValid (step o c) cs (step-NextBelow (costs cs) o c room)
        (step-IsValid (costs cs) o c room v)

  -- After any calls on a new system its tables fit together, as long as the calls hand out fewer
  -- than 2 ^ 64 - 1 ids.
  pub run-new-IsValid : (cs : List (Call F)) → 1 + costs cs < 2 ^ 64 → IsValid (run new cs)
  run-new-IsValid cs room =
      run-IsValid new cs room (record { named = tt; cached = tt; mapped = tt })
