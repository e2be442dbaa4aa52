-- ===== src/Bridge/Bus.antt =====
-- `process_event` of rust/crates/bridge_rx/src/lib.rs. The channel of the event bus is tokio's, which
-- is a parameter with what the code relies on.
use ibkr_bot.Base.{Bool, true, false, List, [], ◌∷◌, ◌++◌, ◌≡◌}
use ibkr_bot.Core.Events.{Event}
use ibkr_bot.Bridge.Validate.{QosPriority, critical, high, medium, low, from_event}

-- The results of `try_send`.
pub data TrySent : Type 0 where
  sent full closed : TrySent

-- A sender and its receiver. `send` waits for room and says whether it succeeded; `runs` is what the
-- receiver does between two calls of the task.
pub record EventChannel (F S : Type 0) : Type 0 where
  pub try_send : Event F → S → TrySent × S
  pub send : Event F → S → Bool × S
  pub runs : S → S

-- `accepted s` are the events that the channel has taken so far, received or not. A send that succeeds
-- adds its event at the end, any other changes nothing, and receiving takes none away.
pub record IsEventChannel {F S : Type 0} (ch : EventChannel F S) (accepted : S → List (Event F))
    : Type 0 where
  pub try_sent :
      (event : Event F) (s : S)
      → (ch.try_send event s).0 ≡ sent
      → accepted (ch.try_send event s).1 ≡ accepted s ++ (event ∷ [])
  pub try_full :
      (event : Event F) (s : S)
      → (ch.try_send event s).0 ≡ full
      → accepted (ch.try_send event s).1 ≡ accepted s
  pub try_closed :
      (event : Event F) (s : S)
      → (ch.try_send event s).0 ≡ closed
      → accepted (ch.try_send event s).1 ≡ accepted s
  pub send_succeeds :
      (event : Event F) (s : S)
      → (ch.send event s).0 ≡ true
      → accepted (ch.send event s).1 ≡ accepted s ++ (event ∷ [])
  pub send_fails :
      (event : Event F) (s : S)
      → (ch.send event s).0 ≡ false
      → accepted (ch.send event s).1 ≡ accepted s
  pub keeps : (s : S) → accepted (ch.runs s) ≡ accepted s

-- What `process_event` writes to the log.
pub data Note : Type 0 where
  quiet drop_warning bus_closed : Note

module _ {F S : Type 0} (ch : EventChannel F S) where
  -- The result of the send that waits.
  unfoldable pub after_send : Bool × S → Note × S
  after_send (true, s) = (quiet, s)
  after_send (false, s) = (bus_closed, s)

  -- The `match priority`, for an event that finds the channel full.
  unfoldable pub after_full : QosPriority → Event F → S → Note × S
  unfolding after_send
  after_full critical event s = after_send (ch.send event s)
  after_full high event s = (drop_warning, s)
  after_full medium event s = (quiet, s)
  after_full low event s = (quiet, s)

  unfoldable pub after_try : TrySent → Event F → S → Note × S
  unfolding after_full
  after_try sent event s = (quiet, s)
  after_try full event s = after_full (from_event event.kind) event s
  after_try closed event s = (bus_closed, s)

  unfoldable pub process_event : Event F → S → Note × S
  unfolding after_try
  process_event event s = let tried = ch.try_send event s in after_try tried.0 event tried.1

  -- Some events one after the other, with the receiver running before each: the notes and the state.
  unfoldable pub process_all : List (Event F) → S → List Note × S
  unfolding process_event
  process_all [] s = ([], s)
  process_all (event ∷ events) s =
      let first = process_event event (ch.runs s) in
      let rest = process_all events first.1 in (first.0 ∷ rest.0, rest.1)
