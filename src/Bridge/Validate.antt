-- ===== src/Bridge/Validate.antt =====
-- `QosPriority` and `validate_event` of rust/crates/bridge_rx/src/lib.rs. The clock is a parameter.
use ibkr_bot.Base.{
  ℕ, nat_eq, Bool, true, false, not, ◌==◌, ◌&&◌, ◌||◌, ◌-◌, ◌+◌, if◌then◌else◌, ltb, ◌≡◌, ◌≢◌, ◌≤◌,
  ◌↔◌, arith,
}
use ibkr_bot.Base.Float.{Float}
use ibkr_bot.Core.Events.{
  Event, EventKind, TickData, tick, l2_delta, snapshot, fill, order_status, reject, heartbeat,
  reconnect, state_sync, halt, cancel_ack, cancel_reject,
}

pub data QosPriority : Type 0 where
  critical high medium low : QosPriority

abbrev pub from_event : {F : Type 0} → EventKind F → QosPriority
from_event (fill _) = critical
from_event (order_status _) = critical
from_event (reject _) = critical
from_event (cancel_ack _) = critical
from_event (cancel_reject _) = critical
from_event (tick _) = high
from_event (l2_delta _) = medium
from_event (snapshot _) = low
from_event heartbeat = low
from_event reconnect = critical
from_event (state_sync _) = critical
from_event halt = critical

module _ {F : Type 0} ⦃f : Float F⦄ where
  unfoldable pub validate_tick : TickData F → Bool
  validate_tick trade =
      f.lt (f.lit 0 0) trade.price && f.le trade.price (f.lit 1000 0) && ltb 0 trade.size

  unfoldable pub validate_kind : EventKind F → Bool
  unfolding validate_tick
  validate_kind (tick trade) = validate_tick trade
  validate_kind (fill report) =
      not (f.le report.price (f.lit 0 0) || f.le (f.lit 100000 0) report.price || report.size == 0)
  validate_kind (l2_delta l2) = not (f.le l2.price (f.lit 0 0))
  validate_kind (snapshot snap) =
      not (f.le snap.bid_price (f.lit 0 0) || f.le snap.ask_price snap.bid_price)
  validate_kind _ = true

  unfoldable pub validate_event : ℕ → Event F → Bool
  unfolding validate_kind
  validate_event now_us event =
      if event.symbol_id == 0
      then false
      else if ltb event.ts_src now_us && ltb 5_000_000 (now_us - event.ts_src)
      then false
      else if event.ts_src == 0 || ltb (now_us + 5_000_000) event.ts_src
      then false
      else validate_kind event.kind

  -- An event is let in exactly if its symbol is not 0, it has a time within five seconds of the clock,
  -- and its kind's values are in range.
  pub validate_event_iff :
      (now_us : ℕ) (event : Event F)
      → (validate_event now_us event ≡ true) ↔ (
          (event.symbol_id ≢ 0)
          × (event.ts_src ≢ 0)
          × (now_us ≤ event.ts_src + 5_000_000)
          × (event.ts_src ≤ now_us + 5_000_000)
          × (validate_kind event.kind ≡ true))
  unfolding validate_event
  validate_event_iff now_us event = ground arith
