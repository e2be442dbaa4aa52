-- ===== src/Runtime/OmsSteps.antt =====
-- What every call of the order system keeps, the OMS task keeps as well:
-- rust/crates/app_runtime/src/lib.rs.
use ibkr_bot.Base.{
  ℕ, true, false, Bool, String, string_eq, List, [], ◌∷◌, ◌^◌, ◌≡◌, refl, inl, inr, Bool-cases,
  length, ◌*◌, ◌%◌,
}
use ibkr_bot.Base.Result.{Result, ok, err}
use ibkr_bot.Base.Float.{Float}
use ibkr_bot.Core.Events.{
  Event, EventKind, OmsCommand, new_order, fill, order_status, cancel_ack, cancel_reject,
  state_sync, heartbeat,
}
use ibkr_bot.Oms.Order.{Oms}
use ibkr_bot.Oms.Cancel.{cancel_order}
use ibkr_bot.Oms.Timeouts.{check_timeouts, find_timed_out_orders}
use ibkr_bot.Oms.History.{
  Call, places, fills, reports, cancels, marks_sent, cancel_acks, cancel_rejects, expires,
  reconciles, step, cost,
}
use ibkr_bot.Runtime.OmsTask.{
  OmsTask, OmsInput, ticks, hears, obeys, send_cancel, cancel_one, cancel_each, timeout_tick,
  reject_each, oms_heartbeat, oms_event, oms_command, oms_input,
}

-- The ids that an event, or an input, may hand out.
abbrev pub event_cost : {F : Type 0} → EventKind F → ℕ
event_cost (state_sync sync) = length sync.open_orders
event_cost _ = 0

abbrev pub input_cost : {F : Type 0} → OmsInput F → ℕ
input_cost (ticks now) = 0
input_cost (hears now event) = event_cost event.kind
input_cost (obeys now (new_order request)) = 1
input_cost (obeys now (OmsCommand.cancel_order request)) = 0

-- `P` is what is kept while no id is handed out, `Q` what an input that may hand out some keeps.
module _ {F : Type 0} ⦃f : Float F⦄ (P Q : Oms F → Type 0) (n : ℕ)
    (weaken : (o : Oms F) → P o → Q o)
    (free : (o : Oms F) (c : Call F) → cost c ≡ 0 → P o → P (step o c))
    (paid : (o : Oms F) (c : Call F) → cost c ≡ n → P o → Q (step o c))
    (rejects : (o : Oms F) (ids : List ℕ)
      → P o
      → P (record o { orders = reject_each ids o.orders })) where
  send_cancel_lem :
      (sends : OmsCommand F → Bool) (id now : ℕ) (o : Oms F) (r : Result String Bool)
      → P o
      → P (send_cancel sends id now o r).0
  unfolding send_cancel step
  send_cancel_lem sends id now o (ok true) h =
      elim (Bool-cases (sends (OmsCommand.cancel_order (record { order_id = id })))) [
        | inl e ↦ rw (e, send_cancel) (free o (marks_sent id now) refl h)
        | inr e ↦ rw (e, send_cancel) h
      ]
  send_cancel_lem sends id now o (ok false) h = h
  send_cancel_lem sends id now o (err e) h = h

  cancel_one_lem :
      (sends : OmsCommand F → Bool) (id now : ℕ) (o : Oms F) → P o → P (cancel_one sends id now o).0
  unfolding cancel_one step
  cancel_one_lem sends id now o h =
      send_cancel_lem sends id now (cancel_order o id now).0 (cancel_order o id now).1
        (free o (cancels id now) refl h)

  cancel_each_lem :
      (sends : OmsCommand F → Bool) (now : ℕ) (ids : List ℕ) (o : Oms F)
      → P o
      → P (cancel_each sends now ids o).0
  unfolding cancel_each
  cancel_each_lem sends now [] o h = h
  cancel_each_lem sends now (id ∷ ids) o h =
      cancel_each_lem sends now ids (cancel_one sends id now o).0 (cancel_one_lem sends id now o h)

  timeout_tick_lem :
      (sends : OmsCommand F → Bool) (cancel_timeout_ms now : ℕ) (o : Oms F)
      → P o
      → P (timeout_tick sends cancel_timeout_ms now o).0
  unfolding timeout_tick step
  timeout_tick_lem sends cancel_timeout_ms now o h =
      free _ (expires now (cancel_timeout_ms * 1000 % 2 ^ 64)) refl
        (cancel_each_lem sends now (check_timeouts o now 30_000_000) o h)

  oms_event_lem :
      (now : ℕ) (event : Event F) (kind : EventKind F) (t : OmsTask F)
      → event_cost kind ≡ n
      → P t.oms
      → Q (oms_event now event kind t).oms
  unfolding oms_event oms_heartbeat step
  oms_event_lem now event (fill report) t e h =
      weaken _ (free t.oms (fills report event.ts_rx) refl h)
  oms_event_lem now event (order_status status) t e h =
      weaken _ (free t.oms (reports status event.ts_rx) refl h)
  oms_event_lem now event (cancel_ack ack) t e h =
      weaken _ (free t.oms (cancel_acks ack.order_id event.ts_rx) refl h)
  oms_event_lem now event (cancel_reject rej) t e h =
      weaken _ (free t.oms (cancel_rejects rej.order_id rej.reason event.ts_rx) refl h)
  oms_event_lem now event (state_sync sync) t e h = paid t.oms (reconciles sync) e h
  oms_event_lem now event heartbeat t e h =
      weaken _ (rejects t.oms (find_timed_out_orders t.oms now 5_000_000) h)
  oms_event_lem now event _ t e h = weaken _ h

  pub oms_input_lem :
      (sends : OmsCommand F → Bool) (cancel_timeout_ms : ℕ) (t : OmsTask F) (i : OmsInput F)
      → input_cost i ≡ n
      → P t.oms
      → Q (oms_input sends cancel_timeout_ms t i).0.oms
  unfolding oms_input oms_command step
  oms_input_lem sends cancel_timeout_ms t (ticks now) e h =
      weaken _ (timeout_tick_lem sends cancel_timeout_ms now t.oms h)
  oms_input_lem sends cancel_timeout_ms t (hears now event) e h =
      oms_event_lem now event event.kind t e h
  oms_input_lem sends cancel_timeout_ms t (obeys now (new_order request)) e h =
      paid t.oms (places request now) e h
  oms_input_lem sends cancel_timeout_ms t (obeys now (OmsCommand.cancel_order request)) e h =
      weaken _ (cancel_one_lem sends request.order_id now t.oms h)
