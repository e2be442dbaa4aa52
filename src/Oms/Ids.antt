-- ===== src/Oms/Ids.antt =====
-- The idempotency cache only grows: rust/crates/execution_engine/src/lib.rs.
use ibkr_bot.Base.{
  ℕ, String, string_eq, Option, some, none, List, [], ◌∷◌, ◌≡◌, sym, arith, inl, inr, Option-cases,
}
use mathlib.Core.Path.{subst}
use ibkr_bot.Base.Map.{lookup, lookup-insert}
use ibkr_bot.Base.Result.{ok}
use ibkr_bot.Base.Float.{Float}
use ibkr_bot.Core.Types.{Order, OrderRequest}
use ibkr_bot.Oms.Order.{Oms, place_order, handle_ack, handle_fill, handle_status}
use ibkr_bot.Oms.Cancel.{cancel_order, mark_cancel_sent, handle_cancel_ack, handle_cancel_reject}
use ibkr_bot.Oms.Timeouts.{check_cancel_timeouts}
use ibkr_bot.Oms.Sync.{reconcile_state, sync_orders, sync_order, sync_by_id, adopt, import}
use ibkr_bot.Oms.History.{
  Call, places, acks, fills, reports, cancels, marks_sent, cancel_acks, cancel_rejects, expires,
  reconciles, step, run,
}

module _ {F : Type 0} (key : String) (id : ℕ) where
  abbrev pub Cached : Oms F → Type 0
  Cached o = lookup key o.idempotency_cache ≡ some id

  import-Cached :
      (o : Oms F) (b : String) (order : Order F)
      → lookup order.client_order_id o.idempotency_cache ≡ none
      → Cached o
      → Cached (import o b order)
  unfolding import
  import-Cached o b order new h = ground (
    arith,
    lookup-insert order.client_order_id key o.next_order_id o.idempotency_cache,
    string_eq.same_iff order.client_order_id key,
  )

  adopt-Cached :
      (o : Oms F) (i : ℕ) (b : String) (order : Order F) → Cached o → Cached (adopt o i b order)
  unfolding adopt
  adopt-Cached o i b order h = ground arith

  sync_order-Cached :
      (o : Oms F) (b : String) (order : Order F) → Cached o → Cached (sync_order o b order)
  unfolding sync_order
  sync_order-Cached o b order h = elim (Option-cases (lookup b o.broker_map)) [
    | inr (i, e) ↦ rw (e, sync_order) h
    | inl e ↦ elim (Option-cases (lookup order.client_order_id o.idempotency_cache)) [
      | inl new ↦ rw (e, new, sync_order) (import-Cached o b order new h)
      | inr (i, old) ↦ rw (e, old, sync_order) (adopt-Cached o i b order h)
    ]
  ]

  sync_by_id-Cached :
      (o : Oms F) (b : Order F) (i : Option String) → Cached o → Cached (sync_by_id o b i)
  unfolding sync_by_id
  sync_by_id-Cached o b none h = h
  sync_by_id-Cached o b (some i) h = sync_order-Cached o i b h

  sync_orders-Cached : (o : Oms F) (bs : List (Order F)) → Cached o → Cached (sync_orders o bs)
  unfolding sync_orders
  sync_orders-Cached o [] h = h
  sync_orders-Cached o (b ∷ bs) h =
      sync_orders-Cached (sync_by_id o b b.broker_order_id) bs
        (sync_by_id-Cached o b b.broker_order_id h)

module _ {F : Type 0} ⦃f : Float F⦄ (key : String) (id : ℕ) where
  place_order-Cached :
      (o : Oms F) (request : OrderRequest F) (ts : ℕ)
      → Cached key id o
      → Cached key id (place_order o request ts).0
  unfolding place_order
  place_order-Cached o request ts h = ground (
    arith,
    lookup-insert request.idempotency_key key o.next_order_id o.idempotency_cache,
    string_eq.same_iff request.idempotency_key key,
  )

  -- No call forgets or changes an entry of the idempotency cache.
  pub step-Cached : (o : Oms F) (c : Call F) → Cached key id o → Cached key id (step o c)
  unfolding step
  step-Cached o (places request ts) h = place_order-Cached o request ts h
  step-Cached o (acks i b) h = unfold handle_ack in ground arith
  step-Cached o (fills fill ts) h = unfold handle_fill in h
  step-Cached o (reports status ts) h = unfold handle_status in h
  step-Cached o (cancels i ts) h = unfold cancel_order in ground arith
  step-Cached o (marks_sent i ts) h = unfold mark_cancel_sent in h
  step-Cached o (cancel_acks i ts) h = unfold handle_cancel_ack in h
  step-Cached o (cancel_rejects i reason ts) h = unfold handle_cancel_reject in h
  step-Cached o (expires now timeout) h = unfold check_cancel_timeouts in h
  step-Cached o (reconciles sync_data) h =
      unfold reconcile_state in sync_orders-Cached key id o sync_data.open_orders h

  run-Cached : (o : Oms F) (cs : List (Call F)) → Cached key id o → Cached key id (run o cs)
  unfolding run
  run-Cached o [] h = h
  run-Cached o (c ∷ cs) h = run-Cached (step o c) cs (step-Cached o c h)

module _ {F : Type 0} ⦃f : Float F⦄ where
  -- `place_order` leaves its key in the cache.
  pub place_order-Cached' :
      (o : Oms F) (r : OrderRequest F) (ts id : ℕ)
      → (place_order o r ts).1 ≡ ok id
      → Cached r.idempotency_key id (place_order o r ts).0
  unfolding place_order
  place_order-Cached' o r ts id h = ground (
    arith,
    lookup-insert r.idempotency_key r.idempotency_key o.next_order_id o.idempotency_cache,
    string_eq.same_iff r.idempotency_key r.idempotency_key,
  )

  pub place_order_known :
      (o : Oms F) (r : OrderRequest F) (ts id : ℕ)
      → Cached r.idempotency_key id o
      → place_order o r ts ≡ (o, ok id)
  unfolding place_order
  place_order_known o r ts id h = rw (h, place_order)

  -- A request whose key was placed before gets the id of the first placement, and changes nothing,
  -- whatever calls came in between.
  pub place_order_idempotent :
      (o : Oms F) (r s : OrderRequest F) (ts later id : ℕ) (cs : List (Call F))
      → (place_order o r ts).1 ≡ ok id
      → s.idempotency_key ≡ r.idempotency_key
      → let o' = run (place_order o r ts).0 cs in place_order o' s later ≡ (o', ok id)
  place_order_idempotent o r s ts later id cs placed same = place_order_known _ s later id (
      subst (λ key. Cached key id (run (place_order o r ts).0 cs)) (sym same)
        (run-Cached r.idempotency_key id _ cs (place_order-Cached' o r ts id placed)))
