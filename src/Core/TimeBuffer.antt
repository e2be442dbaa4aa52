-- ===== src/Core/TimeBuffer.antt =====
-- `TimeRingBuffer` of rust/crates/core_types/src/time_buffer.rs. An index out of bounds, where Rust
-- panics, reads `none` and writes nothing; Refine and Drain show that none occurs. The pruning loop
-- and the iterator get the capacity as fuel, which Drain shows to be enough.
pub mod Ring
pub mod Refine
pub mod Drain
pub mod Runs
mod Tests
use ibkr_bot.Base.{
  ℕ, zero, suc, nat_eq, Bool, true, false, Option, some, none, List, [], ◌∷◌, ◌+◌, ◌-◌, ◌%◌, ◌==◌,
  if◌then◌else◌, ltb, leb, get_elem?, set, replicate,
}

pub record TimeRingBuffer (A : Type 0) : Type 0 where
  pub buffer : List (Option (ℕ × A))
  pub head : ℕ
  pub tail : ℕ
  pub capacity : ℕ
  pub window_micros : ℕ

module _ {A : Type 0} where
  unfoldable pub new : ℕ → ℕ → TimeRingBuffer A
  new max_elements window_micros =
      let capacity = max_elements + 1 in
      record {
        buffer = replicate capacity none;
        head = 0;
        tail = 0;
        capacity = capacity;
        window_micros = window_micros;
      }

  unfoldable pub push : TimeRingBuffer A → ℕ → A → TimeRingBuffer A
  push rb timestamp item =
      let next_head = (rb.head + 1) % rb.capacity in
      record rb {
        tail = if next_head == rb.tail then (rb.tail + 1) % rb.capacity else rb.tail;
        buffer = set rb.buffer rb.head (some (timestamp, item));
        head = next_head;
      }

  -- The `while` loop of `prune_expired`: the new tail.
  unfoldable pub prune_from : ℕ → ℕ → TimeRingBuffer A → ℕ → ℕ
  prune_from zero cutoff rb tail = tail
  prune_from (suc fuel) cutoff rb tail =
      let rest = prune_from fuel cutoff rb ((tail + 1) % rb.capacity) in
      if rb.head == tail then tail else (elim (get_elem? rb.buffer tail) [
        | some (some (ts, item)) ↦ if ltb ts cutoff then rest else tail
        | some none ↦ rest
        | none ↦ tail
      ])

  unfoldable pub prune_expired : TimeRingBuffer A → ℕ → TimeRingBuffer A
  prune_expired rb current_time =
      if rb.head == rb.tail
      then rb
      else record rb { tail = prune_from rb.capacity (current_time - rb.window_micros) rb rb.tail }

  unfoldable pub len : TimeRingBuffer A → ℕ
  len rb = if leb rb.tail rb.head then rb.head - rb.tail else rb.capacity + rb.head - rb.tail

  unfoldable pub is_empty : TimeRingBuffer A → Bool
  is_empty rb = rb.head == rb.tail

  -- What the iterator yields from `current` on, until it returns `None`.
  unfoldable pub iter_from : ℕ → TimeRingBuffer A → ℕ → List A
  iter_from zero rb current = []
  iter_from (suc fuel) rb current =
      let rest = iter_from fuel rb ((current + 1) % rb.capacity) in
      if current == rb.head then [] else (elim (get_elem? rb.buffer current) [
        | some (some (ts, item)) ↦ item ∷ rest
        | some none ↦ []
        | none ↦ []
      ])

  unfoldable pub iter : TimeRingBuffer A → List A
  iter rb = iter_from rb.capacity rb rb.tail

  -- The loop of `min_max`, with `T`'s `<`.
  unfoldable pub min_max_from : (A → A → Bool) → List A → Option A → Option A → Option A × Option A
  min_max_from less [] low high = (low, high)
  min_max_from less (item ∷ items) low high =
      min_max_from less items
        (elim low [ none ↦ some item | some m ↦ if less item m then some item else some m ])
        (elim high [ none ↦ some item | some m ↦ if less m item then some item else some m ])

  unfoldable pub min_max : (A → A → Bool) → TimeRingBuffer A → Option A × Option A
  min_max less rb =
      if rb.head == rb.tail then (none, none) else min_max_from less (iter rb) none none
