-- ===== src/Bridge/Batch.antt =====
-- `read_and_process_batch` of rust/crates/bridge_rx/src/lib.rs. The decoder of rmp_serde is the
-- parameter `decode`; a byte is a number. The loop has the buffer's length as its fuel, which is
-- enough as every event takes a byte.
use ibkr_bot.Base.{
  ℕ, zero, suc, Bool, true, false, List, [], ◌∷◌, ◌++◌, if◌then◌else◌, length, ltb, ◌-◌, ◌&&◌, not,
}
use ibkr_bot.Base.Result.{Result, ok, err}
use ibkr_bot.Base.Float.{Float}
use ibkr_bot.Core.Events.{Event, EventKind, heartbeat}
use ibkr_bot.Bridge.Validate.{validate_event}

-- What deserialising at the buffer's start gives: an event and the bytes it took, or the error.
pub data Decoded (F : Type 0) : Type 0 where
  decoded : Event F → ℕ → Decoded F
  unexpected_eof syntax_error other_error : Decoded F

abbrev pub drop : {A : Type 0} → ℕ → List A → List A
drop zero xs = xs
drop (suc n) [] = []
drop (suc n) (x ∷ xs) = drop n xs

-- The events that a batch gave, the bytes that are left, and whether the connection fails.
pub record Batch (F : Type 0) : Type 0 where
  pub events : List (Event F)
  pub rest : List ℕ
  pub failed : Bool

abbrev pub add_event : {F : Type 0} → Event F → Batch F → Batch F
add_event event b = record b { events = event ∷ b.events }

pub record BridgeRxTask : Type 0 where
  pub last_heartbeat : ℕ
  pub is_degraded : Bool
  pub read_buf : List ℕ

abbrev pub is_heartbeat : {F : Type 0} → EventKind F → Bool
is_heartbeat heartbeat = true
is_heartbeat _ = false

module _ {F : Type 0} (decode : List ℕ → Decoded F) where
  unfoldable pub read_batch : ℕ → List ℕ → Batch F
  read_batch zero buf = record { events = []; rest = buf; failed = false }
  read_batch (suc fuel) [] = record { events = []; rest = []; failed = false }
  read_batch (suc fuel) (x ∷ buf) = elim (decode (x ∷ buf)) [
    | decoded event n ↦ add_event event (read_batch fuel (drop n (x ∷ buf)))
    | unexpected_eof ↦ record { events = []; rest = x ∷ buf; failed = false }
    | syntax_error ↦ record { events = []; rest = x ∷ buf; failed = false }
    | other_error ↦ record { events = []; rest = x ∷ buf; failed = true }
  ]

-- The check that `run` makes every half second.
unfoldable pub check_heartbeat : ℕ → BridgeRxTask → BridgeRxTask × List Bool
check_heartbeat now t =
    if ltb 1_000_000 (now - t.last_heartbeat) && not t.is_degraded
    then (record t { is_degraded = true }, true ∷ [])
    else (t, [])

-- A new connection clears the buffer.
unfoldable pub connect : BridgeRxTask → BridgeRxTask
connect t = record t { read_buf = [] }

module _ {F : Type 0} where
  -- A heartbeat's effect on the task, and what it tells the runtime.
  unfoldable pub note_heartbeat : ℕ → BridgeRxTask → Event F → BridgeRxTask × List Bool
  note_heartbeat now t event =
      if is_heartbeat event.kind
      then (
        record t { last_heartbeat = now; is_degraded = false },
        if t.is_degraded then false ∷ [] else [],
      )
      else (t, [])

-- What a task has done: its state, the notices of degradation and the events that go to the bus.
pub record Outcome (F : Type 0) : Type 0 where
  pub task : BridgeRxTask
  pub notices : List Bool
  pub offered : List (Event F)

module _ {F : Type 0} ⦃f : Float F⦄ where
  unfoldable pub process_events : ℕ → BridgeRxTask → List (Event F) → Outcome F
  unfolding note_heartbeat validate_event
  process_events now t [] = record { task = t; notices = []; offered = [] }
  process_events now t (event ∷ events) =
      let noted = note_heartbeat now t event in
      let rest = process_events now noted.0 events in
      record {
        task = rest.task;
        notices = noted.1 ++ rest.notices;
        offered = if validate_event now event then event ∷ rest.offered else rest.offered;
      }

  -- One read of bytes: an error at the end of the stream, or where the decoder fails.
  unfoldable pub read_and_process_batch :
      (List ℕ → Decoded F) → ℕ → BridgeRxTask → List ℕ → Result (Outcome F) (Outcome F)
  unfolding read_batch process_events
  read_and_process_batch decode now t [] = err (record { task = t; notices = []; offered = [] })
  read_and_process_batch decode now t (x ∷ bytes) =
      let buf = t.read_buf ++ (x ∷ bytes) in
      let batch = read_batch decode (length buf) buf in
      let left = if batch.failed then buf else batch.rest in
      let done = process_events now (record t { read_buf = left }) batch.events in
      if batch.failed then err done else ok done
