-- ===== src/Runtime/OmsTask.antt =====
-- The OMS task of rust/crates/app_runtime/src/lib.rs: its three inputs, on the order system. Whether
-- a send to the bridge succeeds is an argument; the outputs are the commands whose send succeeded.
use ibkr_bot.Base.{
  ℕ, nat_eq, String, Bool, true, false, some, none, List, [], ◌∷◌, ◌++◌, ◌*◌, ◌%◌, ◌^◌,
  if◌then◌else◌,
}
use ibkr_bot.Base.Map.{Map, lookup, insert, adjust}
use ibkr_bot.Base.Result.{Result, ok, err}
use ibkr_bot.Base.Float.{Float}
use ibkr_bot.Core.Types.{SymbolId, Order, rejected}
use ibkr_bot.Core.Events.{
  Event, EventKind, OmsCommand, new_order, fill, order_status, cancel_ack, cancel_reject,
  state_sync, halt, heartbeat,
}
use ibkr_bot.Oms.Order.{Oms, new, place_order, handle_fill, handle_status}
use ibkr_bot.Oms.Cancel.{cancel_order, mark_cancel_sent, handle_cancel_ack, handle_cancel_reject}
use ibkr_bot.Oms.Timeouts.{find_timed_out_orders, check_timeouts, check_cancel_timeouts}
use ibkr_bot.Oms.Sync.{reconcile_state}
use ibkr_bot.Runtime.Positions.{OmsPosition, new_oms_position, oms_fill}

pub record OmsTask (F : Type 0) : Type 0 where
  pub oms : Oms F
  pub halted_symbols : Map SymbolId ℕ
  pub oms_positions : Map SymbolId (OmsPosition F)

module _ {F : Type 0} where
  abbrev pub new_oms_task : OmsTask F
  new_oms_task = record { oms = new; halted_symbols = []; oms_positions = [] }

  -- Only an order that the cancel flow accepts now is sent, and marked once the send succeeds.
  unfoldable pub send_cancel :
      (OmsCommand F → Bool) → ℕ → ℕ → Oms F → Result String Bool → Oms F × List (OmsCommand F)
  send_cancel sends order_id now oms (ok true) =
      let command = OmsCommand.cancel_order (record { order_id = order_id }) in
      if sends command then (mark_cancel_sent oms order_id now, command ∷ []) else (oms, [])
  send_cancel sends order_id now oms (ok false) = (oms, [])
  send_cancel sends order_id now oms (err e) = (oms, [])

  unfoldable pub cancel_one : (OmsCommand F → Bool) → ℕ → ℕ → Oms F → Oms F × List (OmsCommand F)
  unfolding send_cancel
  cancel_one sends order_id now oms =
      let asked = cancel_order oms order_id now in send_cancel sends order_id now asked.0 asked.1

  -- The loop over the orders that timed out.
  unfoldable pub cancel_each :
      (OmsCommand F → Bool) → ℕ → List ℕ → Oms F → Oms F × List (OmsCommand F)
  unfolding cancel_one
  cancel_each sends now [] oms = (oms, [])
  cancel_each sends now (order_id ∷ ids) oms =
      let first = cancel_one sends order_id now oms in
      let rest = cancel_each sends now ids first.0 in (rest.0, first.1 ++ rest.1)

  -- The tick of `timeout_check`.
  unfoldable pub timeout_tick : (OmsCommand F → Bool) → ℕ → ℕ → Oms F → Oms F × List (OmsCommand F)
  unfolding cancel_each
  timeout_tick sends cancel_timeout_ms now oms =
      let cancels = cancel_each sends now (check_timeouts oms now 30_000_000) oms in
      let cancel_timeout_us = cancel_timeout_ms * 1000 % 2 ^ 64 in
      ((check_cancel_timeouts cancels.0 now cancel_timeout_us).0, cancels.1)

  abbrev pub reject_order : Order F → Order F
  reject_order order = record order { status = rejected }

  -- The loop of the heartbeat.
  unfoldable pub reject_each : List ℕ → Map ℕ (Order F) → Map ℕ (Order F)
  reject_each [] orders = orders
  reject_each (order_id ∷ ids) orders = reject_each ids (adjust order_id reject_order orders)

  unfoldable pub oms_heartbeat : ℕ → Oms F → Oms F
  unfolding reject_each
  oms_heartbeat now oms = record oms {
    orders = reject_each (find_timed_out_orders oms now 5_000_000) oms.orders;
  }

module _ {F : Type 0} ⦃f : Float F⦄ where
  abbrev pub oms_position_or_new : OmsTask F → SymbolId → OmsPosition F
  oms_position_or_new t symbol = elim (lookup symbol t.oms_positions) [
    | some p ↦ p
    | none ↦ new_oms_position
  ]

  -- An event of the broker, by its kind; `now` is the time at which a heartbeat is handled.
  unfoldable pub oms_event : ℕ → Event F → EventKind F → OmsTask F → OmsTask F
  unfolding oms_heartbeat oms_fill
  oms_event now event (fill report) t = record t {
    oms = handle_fill t.oms report event.ts_rx;
    oms_positions =
        insert event.symbol_id (oms_fill (oms_position_or_new t event.symbol_id) report)
          t.oms_positions;
  }
  oms_event now event (order_status status) t = record t {
    oms = handle_status t.oms status event.ts_rx;
  }
  oms_event now event (cancel_ack ack) t = record t {
    oms = handle_cancel_ack t.oms ack.order_id event.ts_rx;
  }
  oms_event now event (cancel_reject rej) t = record t {
    oms = handle_cancel_reject t.oms rej.order_id rej.reason event.ts_rx;
  }
  oms_event now event (state_sync sync) t = record t { oms = (reconcile_state t.oms sync).0 }
  oms_event now event halt t = record t {
    halted_symbols = insert event.symbol_id event.ts_src t.halted_symbols;
  }
  oms_event now event heartbeat t = record t { oms = oms_heartbeat now t.oms }
  oms_event now event _ t = t

  -- A command of another task, by its kind. A request that `place_order` takes is sent on.
  unfoldable pub oms_command :
      (OmsCommand F → Bool) → ℕ → OmsCommand F → Oms F → Oms F × List (OmsCommand F)
  unfolding cancel_one
  oms_command sends now (new_order request) oms =
      let command = new_order request in
      let placed = place_order oms request now in
      (
        placed.0,
        elim placed.1 [ err e ↦ [] | ok order_id ↦ if sends command then command ∷ [] else [] ],
      )
  oms_command sends now (OmsCommand.cancel_order request) oms =
      cancel_one sends request.order_id now oms

pub data OmsInput (F : Type 0) : Type 0 where
  ticks : ℕ → OmsInput F
  hears : ℕ → Event F → OmsInput F
  obeys : ℕ → OmsCommand F → OmsInput F

module _ {F : Type 0} ⦃f : Float F⦄ (sends : OmsCommand F → Bool) (cancel_timeout_ms : ℕ) where
  unfoldable pub oms_input : OmsTask F → OmsInput F → OmsTask F × List (OmsCommand F)
  unfolding timeout_tick oms_event oms_command
  oms_input t (ticks now) =
      let r = timeout_tick sends cancel_timeout_ms now t.oms in (record t { oms = r.0 }, r.1)
  oms_input t (hears now event) = (oms_event now event event.kind t, [])
  oms_input t (obeys now command) =
      let r = oms_command sends now command t.oms in (record t { oms = r.0 }, r.1)

module _ {F : Type 0} ⦃f : Float F⦄ (cancel_timeout_ms : ℕ) where
  -- Inputs in order, each with the sends that succeed then.
  unfoldable pub run_oms : OmsTask F → List ((OmsCommand F → Bool) × OmsInput F) → OmsTask F
  unfolding oms_input
  run_oms t [] = t
  run_oms t ((sends, i) ∷ is) = run_oms (oms_input sends cancel_timeout_ms t i).0 is
