-- ===== src/Oms/Flow.antt =====
-- The cancel flow as a state machine: rust/crates/execution_engine/src/lib.rs.
use mathlib.Core.Option
use ibkr_bot.Base.{
  ℕ, nat_eq, Bool, true, false, Option, some, none, ◌≡◌, ◌∙◌, sym, ap, ◌↔◌, ◌⊎◌, refl, arith, ◌==◌,
  inl, inr, Bool-cases, Option-cases, ◌||◌, nat_beq_iff, and_left,
}
use ibkr_bot.Base.Map.{
  Map, lookup, adjust, map_values, lookup-adjust, lookup-map_values, lookup-adjust_self,
}
use ibkr_bot.Base.Result.{ok}
use ibkr_bot.Base.Float.{Float}
use ibkr_bot.Core.Types.{
  Order, OrderStatus, live, cancelled, pending_cancel, cancel_sent, cancel_rejected, cancel_timeout,
  status_eq,
}
use ibkr_bot.Oms.Order.{Oms}
use ibkr_bot.Oms.Cancel.{
  cancel_order, cancel_by_status, set_status, awaits_sending, awaits_ack, awaits_refusal,
  advance_if, mark_cancel_sent, handle_cancel_ack, handle_cancel_reject,
}
use ibkr_bot.Oms.Timeouts.{is_open, is_cancel_timed_out, check_cancel_timeouts, expire_cancel}
use ibkr_bot.Oms.History.{Call, cancels, marks_sent, cancel_acks, cancel_rejects, expires, step}

-- One step of the cancel flow.
pub data CancelMove : OrderStatus → OrderStatus → Type 0 where
  request_pending : CancelMove OrderStatus.pending pending_cancel
  request_live : CancelMove live pending_cancel
  sent : CancelMove pending_cancel cancel_sent
  acked_pending : CancelMove pending_cancel cancelled
  acked_sent : CancelMove cancel_sent cancelled
  acked_late : CancelMove cancel_timeout cancelled
  refused_pending : CancelMove pending_cancel cancel_rejected
  refused_sent : CancelMove cancel_sent cancel_rejected
  expired_pending : CancelMove pending_cancel cancel_timeout
  expired_sent : CancelMove cancel_sent cancel_timeout

abbrev pub Moved : OrderStatus → OrderStatus → Type 0
Moved s t = (s ≡ t) ⊎ CancelMove s t

-- No order comes or goes, and the status of one stays or makes a step.
abbrev pub MovedAt : {F : Type 0} → Option (Order F) → Option (Order F) → Type 0
MovedAt none none = Unit
MovedAt (some x) (some y) = Moved x.status y.status
MovedAt _ _ = ⊥

abbrev pub is_cancel_call : {F : Type 0} → Call F → Bool
is_cancel_call (cancels id ts) = true
is_cancel_call (marks_sent id ts) = true
is_cancel_call (cancel_acks id ts) = true
is_cancel_call (cancel_rejects id reason ts) = true
is_cancel_call (expires now timeout) = true
is_cancel_call _ = false

module _ {F : Type 0} where
  MovedAt-refl : (x : Option (Order F)) → MovedAt x x
  MovedAt-refl none = tt
  MovedAt-refl (some x) = inl refl

  map-MovedAt :
      (g : Order F → Order F) (x : Option (Order F))
      → ((order : Order F) → x ≡ some order → Moved order.status (g order).status)
      → MovedAt x (Option.map g x)
  map-MovedAt g none move = tt
  map-MovedAt g (some x) move = move x refl

  adjust-MovedAt :
      (id j : ℕ) (g : Order F → Order F) (m : Map ℕ (Order F))
      → ((order : Order F) → lookup id m ≡ some order → Moved order.status (g order).status)
      → MovedAt (lookup j m) (lookup j (adjust id g m))
  adjust-MovedAt id j g m move = elim (Bool-cases (id == j)) [
    | inr miss ↦ rw (lookup-adjust id j g m, miss) (MovedAt-refl (lookup j m))
    | inl hit ↦
        let same : id ≡ j = (nat_beq_iff id j).0 hit in
        rw (lookup-adjust id j g m, hit)
          (map-MovedAt g (lookup j m) (λ order e. move order (rw same e)))
  ]

  map_values-MovedAt :
      (j : ℕ) (g : ℕ → Order F → Order F) (m : Map ℕ (Order F))
      → ((order : Order F) → Moved order.status (g j order).status)
      → MovedAt (lookup j m) (lookup j (map_values g m))
  map_values-MovedAt j g m move =
      rw (lookup-map_values j g m) (map-MovedAt (g j) (lookup j m) (λ order _. move order))

  advance_if-Moved :
      (test : OrderStatus → Bool) (next : OrderStatus) (ts : ℕ) (order : Order F)
      → (test order.status ≡ true → CancelMove order.status next)
      → Moved order.status (advance_if test next ts order).status
  unfolding advance_if set_status
  advance_if-Moved test next ts order move = elim (Bool-cases (test order.status)) [
    | inl t ↦ rw (t, advance_if) (inr (move t))
    | inr t ↦ rw (t, advance_if) (inl refl)
  ]

  cancel_by_status-MovedAt :
      (o : Oms F) (id ts j : ℕ) (s : OrderStatus)
      → ((order : Order F) → lookup id o.orders ≡ some order → order.status ≡ s)
      → MovedAt (lookup j o.orders) (lookup j (cancel_by_status o id ts s).0.orders)
  unfolding cancel_by_status set_status
  cancel_by_status-MovedAt o id ts j OrderStatus.pending is =
      adjust-MovedAt id j _ o.orders (λ order e. inr (rw (is order e) request_pending))
  cancel_by_status-MovedAt o id ts j live is =
      adjust-MovedAt id j _ o.orders (λ order e. inr (rw (is order e) request_live))
  cancel_by_status-MovedAt o id ts j s is = MovedAt-refl (lookup j o.orders)

  cancel_order-MovedAt :
      (o : Oms F) (id ts j : ℕ)
      → MovedAt (lookup j o.orders) (lookup j (cancel_order o id ts).0.orders)
  unfolding cancel_order
  cancel_order-MovedAt o id ts j = elim (Option-cases (lookup id o.orders)) [
    | inl e ↦ rw (e, cancel_order) (MovedAt-refl (lookup j o.orders))
    | inr (order, e) ↦
        rw (e, cancel_order)
          (cancel_by_status-MovedAt o id ts j order.status (λ x e'. ground arith))
  ]

sent_move : (s : OrderStatus) → awaits_sending s ≡ true → CancelMove s cancel_sent
sent_move pending_cancel t = sent
sent_move s t = cc

ack_move : (s : OrderStatus) → awaits_ack s ≡ true → CancelMove s cancelled
ack_move pending_cancel t = acked_pending
ack_move cancel_sent t = acked_sent
ack_move cancel_timeout t = acked_late
ack_move s t = cc

refuse_move : (s : OrderStatus) → awaits_refusal s ≡ true → CancelMove s cancel_rejected
refuse_move pending_cancel t = refused_pending
refuse_move cancel_sent t = refused_sent
refuse_move s t = cc

expire_move :
    (s : OrderStatus)
    → (s == pending_cancel || s == cancel_sent) ≡ true
    → CancelMove s cancel_timeout
expire_move pending_cancel t = expired_pending
expire_move cancel_sent t = expired_sent
expire_move s t = cc

module _ {F : Type 0} where
  expire_cancel-Moved :
      (now timeout id : ℕ) (order : Order F)
      → Moved order.status (expire_cancel now timeout id order).status
  unfolding expire_cancel
  expire_cancel-Moved now timeout id order =
      elim (Bool-cases (is_cancel_timed_out now timeout order)) [
        | inl t ↦ rw (t, expire_cancel) (inr (expire_move order.status (and_left _ _ t)))
        | inr t ↦ rw (t, expire_cancel) (inl refl)
      ]

module _ {F : Type 0} ⦃f : Float F⦄ where
  -- A call of the cancel flow moves the status of every order by one step of the flow, or leaves it.
  pub step-MovedAt :
      (o : Oms F) (c : Call F) (j : ℕ)
      → is_cancel_call c ≡ true
      → MovedAt (lookup j o.orders) (lookup j (step o c).orders)
  unfolding step mark_cancel_sent handle_cancel_ack handle_cancel_reject check_cancel_timeouts
  step-MovedAt o (cancels id ts) j t = cancel_order-MovedAt o id ts j
  step-MovedAt o (marks_sent id ts) j t =
      adjust-MovedAt id j _ o.orders
        (λ order _. advance_if-Moved awaits_sending _ ts order (sent_move order.status))
  step-MovedAt o (cancel_acks id ts) j t =
      adjust-MovedAt id j _ o.orders
        (λ order _. advance_if-Moved awaits_ack _ ts order (ack_move order.status))
  step-MovedAt o (cancel_rejects id reason ts) j t =
      adjust-MovedAt id j _ o.orders
        (λ order _. advance_if-Moved awaits_refusal _ ts order (refuse_move order.status))
  step-MovedAt o (expires now timeout) j t =
      map_values-MovedAt j _ o.orders (expire_cancel-Moved now timeout j)
  step-MovedAt o _ j t = cc

module _ {F : Type 0} where
  cancel_order_status :
      (o : Oms F) (id ts : ℕ) (order : Order F) (s : OrderStatus)
      → lookup id o.orders ≡ some order
      → order.status ≡ s
      → cancel_order o id ts ≡ cancel_by_status o id ts s
  unfolding cancel_order
  cancel_order_status o id ts order s e h = rw (e, cancel_order) (ap (cancel_by_status o id ts) h)

  cancel_by_status-ok_iff :
      (o : Oms F) (id ts : ℕ) (s : OrderStatus)
      → ((cancel_by_status o id ts s).1 ≡ ok true)
        ↔ ((s == OrderStatus.pending || s == live) ≡ true)
  unfolding cancel_by_status
  cancel_by_status-ok_iff o id ts OrderStatus.pending = (λ _. refl, λ _. refl)
  cancel_by_status-ok_iff o id ts live = (λ _. refl, λ _. refl)
  cancel_by_status-ok_iff o id ts s = (λ e. cc, λ e. cc)

  -- `cancel_order` accepts exactly the orders that are pending or live.
  pub cancel_order-eq-ok_iff :
      (o : Oms F) (id ts : ℕ)
      → ((cancel_order o id ts).1 ≡ ok true)
        ↔ ((order : Order F) × (lookup id o.orders ≡ some order) × (is_open order ≡ true))
  unfolding cancel_order
  cancel_order-eq-ok_iff o id ts = elim (Option-cases (lookup id o.orders)) [
    | inl e ↦ (λ h. ground arith, λ (order, found, _). ground arith)
    | inr (order, e) ↦ (
      λ h. (
        order,
        e,
        (cancel_by_status-ok_iff o id ts order.status).0
            (ap (λ r. r.1) (sym (cancel_order_status o id ts order _ e refl)) ∙ h),
      ),
      λ (x, found, open_x).
          ap (λ r. r.1) (cancel_order_status o id ts x _ found refl)
          ∙ (cancel_by_status-ok_iff o id ts x.status).1 open_x,
    )
  ]

  cancel_by_status_open :
      (o : Oms F) (id ts : ℕ) (s : OrderStatus)
      → (s == OrderStatus.pending || s == live) ≡ true
      → (cancel_by_status o id ts s).0
        ≡ record o { orders = adjust id (set_status pending_cancel ts) o.orders }
  unfolding cancel_by_status
  cancel_by_status_open o id ts OrderStatus.pending h = refl
  cancel_by_status_open o id ts live h = refl
  cancel_by_status_open o id ts s h = cc

  -- The state after an accepted cancel: the order waits for its cancel, all others are as before.
  pub cancel_order_accepted :
      (o : Oms F) (id ts : ℕ)
      → (cancel_order o id ts).1 ≡ ok true
      → (cancel_order o id ts).0
        ≡ record o { orders = adjust id (set_status pending_cancel ts) o.orders }
  cancel_order_accepted o id ts accepted =
      let (order, e, is_open_order) = (cancel_order-eq-ok_iff o id ts).0 accepted in
      ap (λ r. r.0) (cancel_order_status o id ts order _ e refl)
      ∙ cancel_by_status_open o id ts order.status is_open_order

  -- A cancel that was accepted is not accepted again, before or after it is marked as sent: the
  -- repeated call reports false and changes nothing.
  cancel_order_again :
      (o : Oms F) (id ts sent_at later : ℕ)
      → (cancel_order o id ts).1 ≡ ok true
      → let once = (cancel_order o id ts).0 in
        let marked = mark_cancel_sent once id sent_at in
        (cancel_order once id later ≡ (once, ok false))
        × (cancel_order marked id later ≡ (marked, ok false))
  unfolding mark_cancel_sent advance_if set_status cancel_by_status
  cancel_order_again o id ts sent_at later accepted =
      let (order, e, _) = (cancel_order-eq-ok_iff o id ts).0 accepted in
      let waiting = lookup-adjust_self id (set_status pending_cancel ts) o.orders order e in
      rw (cancel_order_accepted o id ts accepted) (
        cancel_order_status _ id later _ pending_cancel waiting refl,
        cancel_order_status _ id later _ cancel_sent
            (lookup-adjust_self id (advance_if awaits_sending cancel_sent sent_at) _ _ waiting)
            refl,
      )
