-- ===== src/Runtime/Routes.antt =====
-- The data router and the monitor-only switch of rust/crates/app_runtime/src/lib.rs. A send that finds
-- a channel full is dropped: the routes are what the router tries to send.
use ibkr_bot.Base.{Bool, true, false, List, [], ◌∷◌, ◌||◌, if◌then◌else◌}
use ibkr_bot.Core.Events.{
  EventKind, tick, l2_delta, snapshot, fill, order_status, reject, heartbeat, reconnect, state_sync,
  halt, cancel_ack, cancel_reject,
}
use ibkr_bot.Risk.State.{RiskState, set_monitor_only}
use ibkr_bot.Runtime.RiskTask.{has_text}

pub data Channel : Type 0 where
  metrics fast slow oms risk : Channel

-- The channels of an event, in the order of the sends.
unfoldable pub routes : {F : Type 0} → EventKind F → List Channel
routes (tick _) = metrics ∷ fast ∷ slow ∷ []
routes (l2_delta _) = metrics ∷ fast ∷ slow ∷ []
routes (snapshot _) = metrics ∷ slow ∷ []
routes (fill _) = metrics ∷ oms ∷ risk ∷ fast ∷ []
routes (order_status _) = metrics ∷ oms ∷ risk ∷ []
routes (cancel_ack _) = metrics ∷ oms ∷ risk ∷ []
routes (cancel_reject _) = metrics ∷ oms ∷ risk ∷ []
routes (reject rejection) =
    if has_text rejection.reason "DELISTING" || has_text rejection.reason "COMPLIANCE"
    then metrics ∷ risk ∷ oms ∷ []
    else metrics ∷ oms ∷ []
routes halt = metrics ∷ oms ∷ risk ∷ fast ∷ []
routes heartbeat = metrics ∷ oms ∷ risk ∷ slow ∷ []
routes reconnect = metrics ∷ oms ∷ risk ∷ fast ∷ []
routes (state_sync _) = metrics ∷ oms ∷ risk ∷ fast ∷ []

-- The main task: the risk state and `smo_clone`, which says that the main task has set the switch.
pub record Main (F : Type 0) : Type 0 where
  pub risk_state : RiskState F
  pub system_monitor_only : Bool

-- A notice of the bridge on the quality of the data.
unfoldable pub note_degraded : {F : Type 0} → Main F → Bool → Main F
unfolding set_monitor_only
note_degraded m true = record {
  risk_state = set_monitor_only m.risk_state true;
  system_monitor_only = true;
}
note_degraded m false =
    if m.system_monitor_only
    then record { risk_state = set_monitor_only m.risk_state false; system_monitor_only = false }
    else m
