-- ===== src/Runtime/Silence.antt =====
-- What a heartbeat does to the orders that wait: rust/crates/app_runtime/src/lib.rs and
-- rust/crates/execution_engine/src/lib.rs.

use ibkr_bot.Base.{
  ℕ, nat_eq, Bool, true, false, some, List, [], ◌∷◌, ◌+◌, ◌≤◌, ◌≡◌, ◌∙◌, refl, arith, ◌==◌, ap, inl,
  inr, Bool-cases, if◌then◌else◌, contains,
}
use ibkr_bot.Base.Keys.{Distinct}
use ibkr_bot.Base.Map.{Map, lookup, adjust, map_values, contains_key, lookup-map_values}
use ibkr_bot.Base.Result.{err}
use ibkr_bot.Base.Float.{Float}
use ibkr_bot.Core.Types.{Order, status_eq}
use ibkr_bot.Core.Events.{OmsCommand}
use ibkr_bot.Oms.Order.{Oms}
use ibkr_bot.Oms.Cancel.{cancel_order, cancel_by_status}
use ibkr_bot.Oms.Timeouts.{is_timed_out, timed_out_ids, check_timeouts}
use ibkr_bot.Oms.Valid.{IsValid}
use ibkr_bot.Oms.Expiry.{find_timed_out_orders-eq-check_timeouts}
use ibkr_bot.Runtime.OmsTask.{
  reject_order, reject_each, oms_heartbeat, cancel_each, timeout_tick, send_cancel, cancel_one,
  oms_command,
}

module _ {F : Type 0} where
  reject_each-cons :
      (ids : List ℕ) (id : ℕ) (order : Order F) (m : Map ℕ (Order F))
      → contains ids id ≡ false
      → reject_each ids ((id, order) ∷ m) ≡ (id, order) ∷ reject_each ids m
  unfolding reject_each adjust
  reject_each-cons [] id order m h = refl
  reject_each-cons (i ∷ ids) id order m h =
      let apart : (id == i) ≡ false = ground (arith, nat_eq.same_iff i id, nat_eq.same_iff id i) in
      let rest : contains ids id ≡ false = ground arith in
      rw apart (reject_each-cons ids id order (adjust i reject_order m) rest)

  reject_each-head :
      (ids : List ℕ) (id : ℕ) (order : Order F) (m : Map ℕ (Order F))
      → contains ids id ≡ false
      → reject_each (id ∷ ids) ((id, order) ∷ m) ≡ (id, reject_order order) ∷ reject_each ids m
  unfolding reject_each adjust
  reject_each-head ids id order m h =
      let same : (id == id) ≡ true = (nat_eq.same_iff id id).1 refl in
      rw same (reject_each-cons ids id (reject_order order) m h)

  module _ (now timeout : ℕ) where
    -- What the heartbeat makes of one order.
    abbrev reject_old : ℕ → Order F → Order F
    reject_old id order = if is_timed_out now timeout order then reject_order order else order

    contains-timed_out_ids :
        (id : ℕ) (m : Map ℕ (Order F))
        → contains_key id m ≡ false
        → contains (timed_out_ids now timeout m) id ≡ false
    unfolding timed_out_ids lookup
    contains-timed_out_ids id [] h = refl
    contains-timed_out_ids id ((i, order) ∷ m) h = elim (Bool-cases (i == id)) [
      | inl e ↦ ground arith
      | inr e ↦
          let rest = contains-timed_out_ids id m (ground arith) in
          elim (Bool-cases (is_timed_out now timeout order)) [
            | inl t ↦ rw (t, e) rest
            | inr t ↦ rw t rest
          ]
    ]

    reject_each-timed_out_ids :
        (m : Map ℕ (Order F))
        → Distinct m
        → reject_each (timed_out_ids now timeout m) m ≡ map_values reject_old m
    unfolding timed_out_ids map_values reject_each
    reject_each-timed_out_ids [] d = refl
    reject_each-timed_out_ids ((id, order) ∷ m) (d, ds) =
        let new = contains-timed_out_ids id m d in
        let ih = reject_each-timed_out_ids m ds in
        let ids = timed_out_ids now timeout m in
        elim (Bool-cases (is_timed_out now timeout order)) [
          | inl t ↦
              rw t (reject_each-head ids id order m new ∙ ap (λ l. (id, reject_order order) ∷ l) ih)
          | inr t ↦ rw t (reject_each-cons ids id order m new ∙ ap (λ l. (id, order) ∷ l) ih)
        ]

    is_timed_out-reject_old :
        (later longer id : ℕ) (order : Order F)
        → later + timeout ≤ now + longer
        → is_timed_out later longer (reject_old id order) ≡ false
    is_timed_out-reject_old later longer id order h =
        elim (Bool-cases (is_timed_out now timeout order)) [
          | inl t ↦ rw t
          | inr t ↦ rw t (ground arith)
        ]

    timed_out_ids-reject_old :
        (later longer : ℕ) (m : Map ℕ (Order F))
        → later + timeout ≤ now + longer
        → timed_out_ids later longer (map_values reject_old m) ≡ []
    unfolding timed_out_ids map_values
    timed_out_ids-reject_old later longer [] h = refl
    timed_out_ids-reject_old later longer ((id, order) ∷ m) h =
        rw (is_timed_out-reject_old later longer id order h)
          (timed_out_ids-reject_old later longer m h)

  oms_heartbeat_lem :
      (now : ℕ) (oms : Oms F)
      → IsValid oms
      → Distinct oms.orders
      → (oms_heartbeat now oms).orders ≡ map_values (reject_old now 5_000_000) oms.orders
  unfolding oms_heartbeat check_timeouts
  oms_heartbeat_lem now oms v d =
      ap (λ ids. reject_each ids oms.orders)
        (find_timed_out_orders-eq-check_timeouts now 5_000_000 oms v)
      ∙ reject_each-timed_out_ids now 5_000_000 oms.orders d

  timeout_tick_silent :
      (sends : OmsCommand F → Bool) (cancel_timeout_ms now later : ℕ) (oms : Oms F)
      → IsValid oms
      → Distinct oms.orders
      → later ≤ now + 25_000_000
      → (timeout_tick sends cancel_timeout_ms later (oms_heartbeat now oms)).1 ≡ []
  unfolding timeout_tick check_timeouts cancel_each
  timeout_tick_silent sends cancel_timeout_ms now later oms v d soon = rw (
    oms_heartbeat_lem now oms v d,
    timed_out_ids-reject_old now 5_000_000 later 30_000_000 oms.orders (omega arith),
  )

  cancel_order-rejected :
      (oms : Oms F) (id ts : ℕ) (order : Order F)
      → lookup id oms.orders ≡ some (reject_order order)
      → cancel_order oms id ts ≡ (oms, err "Order in terminal state, cannot cancel")
  unfolding cancel_order cancel_by_status
  cancel_order-rejected oms id ts order found = rw (found, cancel_order)

  lookup-oms_heartbeat :
      (now id : ℕ) (oms : Oms F) (order : Order F)
      → IsValid oms
      → Distinct oms.orders
      → lookup id oms.orders ≡ some order
      → is_timed_out now 5_000_000 order ≡ true
      → lookup id (oms_heartbeat now oms).orders ≡ some (reject_order order)
  lookup-oms_heartbeat now id oms order v d found old = rw (
    oms_heartbeat_lem now oms v d,
    lookup-map_values id (reject_old now 5_000_000) oms.orders,
    found,
    old,
  )

module _ {F : Type 0} ⦃f : Float F⦄ where
  -- An order of a valid table with distinct ids that was open for more than five seconds at a
  -- heartbeat is not cancelled any more: the timeout check within 25 seconds sends no cancel, and a
  -- command to cancel the order changes nothing and sends none.
  pub heartbeat_silences :
      (sends : OmsCommand F → Bool) (cancel_timeout_ms now later id : ℕ) (oms : Oms F)
      (order : Order F)
      → IsValid oms
      → Distinct oms.orders
      → later ≤ now + 25_000_000
      → lookup id oms.orders ≡ some order
      → is_timed_out now 5_000_000 order ≡ true
      → let oms' = oms_heartbeat now oms in
        ((timeout_tick sends cancel_timeout_ms later oms').1 ≡ [])
        × (oms_command sends later (OmsCommand.cancel_order (record { order_id = id })) oms'
            ≡ (oms', []))
  unfolding oms_command cancel_one send_cancel
  heartbeat_silences sends cancel_timeout_ms now later id oms order v d soon found old = (
    timeout_tick_silent sends cancel_timeout_ms now later oms v d soon,
    ap (λ r. send_cancel sends id later r.0 r.1)
        (cancel_order-rejected (oms_heartbeat now oms) id later order
          (lookup-oms_heartbeat now id oms order v d found old)),
  )
