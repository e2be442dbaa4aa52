-- ===== src/Bridge/Tests.antt =====
-- The theorems on the bridge at concrete inputs, with a decoder of two bytes an event:
-- rust/crates/bridge_rx/src/lib.rs.
use ibkr_bot.Base.{ℕ, Bool, true, false, List, [], ◌∷◌, ◌++◌, ◌≡◌, ◌<◌, ap, sym, refl, arith}
use ibkr_bot.Base.Float.{Decimal}
use ibkr_bot.Core.Events.{Event, EventKind, heartbeat, reconnect, halt}
use ibkr_bot.Bridge.Batch.{Decoded, decoded, unexpected_eof, read_batch}
use ibkr_bot.Bridge.Bus.{
  TrySent, sent, full, closed, EventChannel, process_all, process_event, after_try, after_full,
  after_send,
}
use ibkr_bot.Bridge.Framing.{IsFraming, receive_chunks, receive_chunks-encode_all}
use ibkr_bot.Bridge.Stops.{Ended, read_batch-Ended}

abbrev of_symbol : ℕ → EventKind Decimal → Event Decimal
of_symbol id kind = record {
  ts_src = 1;
  ts_rx = 1;
  ts_proc = 1;
  seq = 1;
  symbol_id = id;
  kind = kind;
}

-- A heartbeat has two bytes, and the second says its symbol.
abbrev two_bytes : List ℕ → Decoded Decimal
two_bytes [] = unexpected_eof
two_bytes (x ∷ []) = unexpected_eof
two_bytes (x ∷ y ∷ rest) = decoded (of_symbol y heartbeat) 2

abbrev to_bytes : Event Decimal → List ℕ
to_bytes event = 0 ∷ event.symbol_id ∷ []

-- The heartbeats that the sample bridge sends.
abbrev IsBeat : Event Decimal → Type 0
IsBeat event = event ≡ of_symbol event.symbol_id heartbeat

two_bytes-part :
    (event : Event Decimal) (x : ℕ) (xs : List ℕ) (z : ℕ) (zs : List ℕ)
    → IsBeat event
    → to_bytes event ≡ (x ∷ xs) ++ (z ∷ zs)
    → two_bytes (x ∷ xs) ≡ unexpected_eof
two_bytes-part event x [] z zs beat h = refl
two_bytes-part event x (y ∷ []) z zs beat h = cc
two_bytes-part event x (y ∷ y' ∷ xs) z zs beat h = cc

beats-IsFraming : IsFraming two_bytes to_bytes IsBeat
beats-IsFraming = record {
  whole = λ event rest beat. ap (λ e. decoded e 2) (sym beat);
  part = two_bytes-part;
  some_byte = λ event beat. omega arith;
}

abbrev beats : List (Event Decimal)
beats = of_symbol 4 heartbeat ∷ of_symbol 5 heartbeat ∷ []

receive_chunks-encode_all_example :
    receive_chunks two_bytes to_bytes IsBeat [] ((0 ∷ []) ∷ (4 ∷ 0 ∷ 5 ∷ []) ∷ []) ≡ (beats, [])
receive_chunks-encode_all_example =
    receive_chunks-encode_all two_bytes to_bytes IsBeat beats-IsFraming
      ((0 ∷ []) ∷ (4 ∷ 0 ∷ 5 ∷ []) ∷ []) beats (refl, (refl, tt)) refl

two_bytes-takes :
    (buf : List ℕ) (event : Event Decimal) (n : ℕ) → two_bytes buf ≡ decoded event n → 0 < n
two_bytes-takes [] event n h = cc
two_bytes-takes (x ∷ []) event n h = cc
two_bytes-takes (x ∷ y ∷ rest) event n h = let two : n ≡ 2 = cc in omega arith

read_batch-Ended_example : Ended two_bytes (read_batch two_bytes 5 (0 ∷ 4 ∷ 0 ∷ 5 ∷ 0 ∷ []))
read_batch-Ended_example =
    read_batch-Ended two_bytes two_bytes-takes 5 (0 ∷ 4 ∷ 0 ∷ 5 ∷ 0 ∷ []) (omega arith)

-- A channel of one place, whose receiver only runs while a send waits.
record Pipe : Type 0 where
  queue : List (Event Decimal)
  received : List (Event Decimal)
  open_ends : Bool

abbrev accepted : Pipe → List (Event Decimal)
accepted s = s.received ++ s.queue

-- The receiver has taken all that is there.
abbrev emptied : Pipe → Pipe
emptied s = record s { queue = []; received = s.received ++ s.queue }

abbrev try_put : Event Decimal → Pipe → Bool → List (Event Decimal) → TrySent × Pipe
try_put event s false q = (closed, s)
try_put event s true [] = (sent, record s { queue = event ∷ [] })
try_put event s true (x ∷ q) = (full, s)

abbrev put : Event Decimal → Pipe → Bool → Bool × Pipe
put event s true = (true, record (emptied s) { queue = event ∷ [] })
put event s false = (false, s)

abbrev pipe : EventChannel Decimal Pipe
pipe = record {
  try_send = λ event s. try_put event s s.open_ends s.queue;
  send = λ event s. put event s s.open_ends;
  runs = λ s. s;
}

abbrev new_pipe : Pipe
new_pipe = record { queue = []; received = []; open_ends = true }

abbrev controls : List (Event Decimal)
controls = of_symbol 1 halt ∷ of_symbol 4 heartbeat ∷ of_symbol 2 reconnect ∷ []

-- The second event is dropped, the third waits.
test_full : (process_all pipe controls new_pipe).1 ≡ record {
  queue = of_symbol 2 reconnect ∷ [];
  received = of_symbol 1 halt ∷ [];
  open_ends = true;
}
unfolding process_all process_event after_try after_full after_send
test_full = refl
