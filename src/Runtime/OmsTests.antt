-- ===== src/Runtime/OmsTests.antt =====
-- The theorems on the OMS task at concrete inputs: rust/crates/app_runtime/src/lib.rs.
use ibkr_bot.Base.{nat_eq, Bool, true, none, some, List, [], ◌∷◌, ◌≡◌, refl, arith}
use ibkr_bot.Base.Map.{lookup}
use ibkr_bot.Base.Float.{Decimal, decimal_float}
use ibkr_bot.Core.Types.{OrderRequest, bid, limit, gtc}
use ibkr_bot.Core.Events.{Event, EventKind, OmsCommand, new_order, fill, heartbeat}
use ibkr_bot.Oms.Order.{Oms, new, place_order, first_order}
use ibkr_bot.Oms.Valid.{IsValid}
use ibkr_bot.Runtime.OmsTask.{
  OmsInput, ticks, hears, obeys, new_oms_task, oms_heartbeat, timeout_tick, oms_command, oms_input,
  run_oms,
}
use ibkr_bot.Runtime.Resend.{oms_input_resends}
use ibkr_bot.Runtime.OmsValid.{run_oms-IsValid}
use ibkr_bot.Runtime.Silence.{heartbeat_silences}

abbrev request : OrderRequest Decimal
request = record {
  symbol_id = 1;
  side = bid;
  qty = 100;
  order_type = limit;
  limit_price = some (decimal_float.lit 10 0);
  stop_price = none;
  tif = gtc;
  idempotency_key = "ENTRY-1-1000";
  take_profit_price = none;
  stop_loss_price = none;
}

abbrev sends_all : OmsCommand Decimal → Bool
sends_all command = true

abbrev heard : EventKind Decimal → Event Decimal
heard kind = record {
  ts_src = 3000;
  ts_rx = 3100;
  ts_proc = 3200;
  seq = 1;
  symbol_id = 1;
  kind = kind;
}

abbrev inputs : List ((OmsCommand Decimal → Bool) × OmsInput Decimal)
inputs =
    (sends_all, obeys 1000 (new_order request))
    ∷ (
      sends_all,
      hears 3000 (
          heard (
            fill (record {
              order_id = 1;
              price = decimal_float.lit 10 0;
              size = 40;
              side = bid;
              liquidity = 0;
            }))),
    )
    ∷ (sends_all, ticks 40_000_000)
    ∷ (sends_all, hears 50_000_000 (heard heartbeat))
    ∷ []

run_oms-IsValid_example : IsValid (run_oms 500 new_oms_task inputs).oms
run_oms-IsValid_example = run_oms-IsValid 500 inputs (omega arith)

abbrev placed : Oms Decimal
placed = (place_order new request 1000).0

oms_input_resends_example :
    let t' = run_oms 500 (record (new_oms_task {F = Decimal}) { oms = placed }) inputs in
    oms_input sends_all 500 t' (obeys 60_000_000 (new_order request)) ≡ (t', new_order request ∷ [])
unfolding place_order lookup
oms_input_resends_example =
    oms_input_resends 500 new_oms_task request request 1000 60_000_000 1 inputs sends_all refl refl
      refl

abbrev waiting : Oms Decimal
waiting = record new { orders = (1, first_order request 1 1000) ∷ []; next_order_id = 2 }

heartbeat_silences_example :
    let oms' = oms_heartbeat 6_000_000 waiting in
    ((timeout_tick sends_all 500 31_000_000 oms').1 ≡ [])
    × (oms_command sends_all 31_000_000 (OmsCommand.cancel_order (record { order_id = 1 })) oms'
        ≡ (oms', []))
unfolding first_order lookup
heartbeat_silences_example =
    heartbeat_silences sends_all 500 6_000_000 31_000_000 1 waiting (first_order request 1 1000)
      (record { named = ((refl, omega arith), tt); cached = tt; mapped = tt }) (refl, tt)
      (omega arith) refl refl
