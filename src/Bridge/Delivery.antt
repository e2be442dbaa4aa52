-- ===== src/Bridge/Delivery.antt =====
-- Which critical events reach the event bus: rust/crates/bridge_rx/src/lib.rs.
use ibkr_bot.Base.{Bool, true, false, List, [], ◌∷◌, ◌++◌, ◌≡◌, retain, if◌then◌else◌}
use ibkr_bot.Core.Events.{Event, EventKind, tick, l2_delta, snapshot, heartbeat}
use ibkr_bot.Bridge.Bus.{EventChannel, IsEventChannel, Note, bus_closed}

-- All that is not market data or a heartbeat: fills, the states and errors of orders, control.
abbrev pub must_arrive : {F : Type 0} → EventKind F → Bool
must_arrive (tick _) = false
must_arrive (l2_delta _) = false
must_arrive (snapshot _) = false
must_arrive heartbeat = false
must_arrive _ = true

abbrev pub criticals : {F : Type 0} → List (Event F) → List (Event F)
criticals = retain (λ event. must_arrive event.kind)

abbrev pub not_closed : Note → Bool
not_closed bus_closed = false
not_closed _ = true

-- The events for which no closed bus was reported.
abbrev pub unreported : {F : Type 0} → List Note → List (Event F) → List (Event F)
unreported (note ∷ notes) (event ∷ events) =
    if not_closed note then event ∷ unreported notes events else unreported notes events
unreported _ _ = []

module _ {F S : Type 0} (ch : EventChannel F S) (accepted : S → List (Event F))
    (laws : IsEventChannel ch accepted) where
  -- From `before` on, a note and a state account for an event.
  abbrev Accounts : List (Event F) → Event F → Note × S → Type 0
  Accounts before event done =
      criticals (accepted done.1)
      ≡ criticals before ++ criticals (unreported (done.0 ∷ []) (event ∷ []))
