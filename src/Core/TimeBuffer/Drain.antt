-- ===== src/Core/TimeBuffer/Drain.antt =====
-- Pruning and iterating the ring buffer, from the tail on:
-- rust/crates/core_types/src/time_buffer.rs.
use ibkr_bot.Base.{
  ℕ, zero, suc, nat_eq, true, false, List, [], ◌∷◌, ◌-◌, ◌<◌, ◌≡◌, ◌==◌, if◌then◌else◌, ltb, length,
  arith, map, inl, inr, Bool-cases,
}
use ibkr_bot.Core.TimeBuffer.{TimeRingBuffer, prune_from, prune_expired, len, iter, iter_from}
use ibkr_bot.Core.TimeBuffer.Ring.{next, next_lem, gap-next_tail, gap_lt}
use ibkr_bot.Core.TimeBuffer.Refine.{Holds}

module _ {A : Type 0} where
  abbrev pub drop_old : ℕ → List (ℕ × A) → List (ℕ × A)
  drop_old cutoff [] = []
  drop_old cutoff ((ts, item) ∷ xs) = if ltb ts cutoff then drop_old cutoff xs else (ts, item) ∷ xs

  pop-Holds :
      (rb : TimeRingBuffer A) (x : ℕ × A) (xs : List (ℕ × A))
      → Holds rb (x ∷ xs)
      → Holds (record rb { tail = next rb.capacity rb.tail }) xs
  pop-Holds rb x xs h = record {
    head_lt = h.head_lt;
    tail_lt = ground (arith, h.tail_lt);
    size = h.size;
    count = gap-next_tail rb.capacity rb.tail rb.head (length xs) h.tail_lt h.head_lt h.count;
    reads = h.reads.1;
  }

  at_end : (rb : TimeRingBuffer A) → Holds rb [] → (rb.head == rb.tail) ≡ true
  at_end rb h = ground (arith, h.count, h.head_lt, h.tail_lt)

  not_at_end :
      (rb : TimeRingBuffer A) (x : ℕ × A) (xs : List (ℕ × A))
      → Holds rb (x ∷ xs)
      → (rb.head == rb.tail) ≡ false
  not_at_end rb x xs h = ground (arith, h.count, h.head_lt, h.tail_lt)

  prune_from_lem :
      (fuel cutoff t : ℕ) (rb : TimeRingBuffer A) (xs : List (ℕ × A))
      → Holds (record rb { tail = t }) xs
      → length xs < fuel
      → Holds (record rb { tail = prune_from fuel cutoff rb t }) (drop_old cutoff xs)
  unfolding prune_from
  prune_from_lem zero cutoff t rb xs h lt = absurd (omega arith)
  prune_from_lem (suc fuel) cutoff t rb [] h lt = rw (at_end (record rb { tail = t }) h) h
  prune_from_lem (suc fuel) cutoff t rb ((ts, item) ∷ xs) h lt =
      let at_t = record rb { tail = t } in
      let go_on =
        prune_from_lem fuel cutoff (next rb.capacity t) rb xs (pop-Holds at_t (ts, item) xs h)
          (omega arith) in
      elim (Bool-cases (ltb ts cutoff)) [
        | inl old ↦
            rw (not_at_end at_t (ts, item) xs h, h.reads.0, old, next_lem rb.capacity t h.tail_lt)
              go_on
        | inr recent ↦ rw (not_at_end at_t (ts, item) xs h, h.reads.0, recent) h
      ]

  pub count_lt : (rb : TimeRingBuffer A) (xs : List (ℕ × A)) → Holds rb xs → length xs < rb.capacity
  count_lt rb xs h = omega (arith, gap_lt rb.capacity rb.tail rb.head h.tail_lt h.head_lt, h.count)

  -- Pruning drops the expired entries at the front, and stops at the first that is not.
  pub prune_expired-Holds :
      (rb : TimeRingBuffer A) (xs : List (ℕ × A)) (now : ℕ)
      → Holds rb xs
      → Holds (prune_expired rb now) (drop_old (now - rb.window_micros) xs)
  unfolding prune_expired
  prune_expired-Holds rb [] now h = rw (at_end rb h) h
  prune_expired-Holds rb (x ∷ xs) now h = rw (not_at_end rb x xs h) (
      prune_from_lem rb.capacity (now - rb.window_micros) rb.tail rb (x ∷ xs) h
        (count_lt rb (x ∷ xs) h))

  pub len-length : (rb : TimeRingBuffer A) (xs : List (ℕ × A)) → Holds rb xs → len rb ≡ length xs
  unfolding len
  len-length rb xs h = h.count

  end_reached : (rb : TimeRingBuffer A) → Holds rb [] → (rb.tail == rb.head) ≡ true
  end_reached rb h = ground (arith, h.count, h.head_lt, h.tail_lt)

  end_not_reached :
      (rb : TimeRingBuffer A) (x : ℕ × A) (xs : List (ℕ × A))
      → Holds rb (x ∷ xs)
      → (rb.tail == rb.head) ≡ false
  end_not_reached rb x xs h = ground (arith, h.count, h.head_lt, h.tail_lt)

  iter_from_lem :
      (fuel t : ℕ) (rb : TimeRingBuffer A) (xs : List (ℕ × A))
      → Holds (record rb { tail = t }) xs
      → length xs < fuel
      → iter_from fuel rb t ≡ map (λ e. e.1) xs
  unfolding iter_from
  iter_from_lem zero t rb xs h lt = absurd (omega arith)
  iter_from_lem (suc fuel) t rb [] h lt = rw (end_reached (record rb { tail = t }) h)
  iter_from_lem (suc fuel) t rb ((ts, item) ∷ xs) h lt =
      let at_t = record rb { tail = t } in
      let rest =
        iter_from_lem fuel (next rb.capacity t) rb xs (pop-Holds at_t (ts, item) xs h)
          (omega arith) in
      rw (end_not_reached at_t (ts, item) xs h, h.reads.0, next_lem rb.capacity t h.tail_lt, rest)

  -- The iterator yields the items of the entries, oldest first.
  pub iter_lem :
      (rb : TimeRingBuffer A) (xs : List (ℕ × A)) → Holds rb xs → iter rb ≡ map (λ e. e.1) xs
  unfolding iter
  iter_lem rb xs h = iter_from_lem rb.capacity rb.tail rb xs h (count_lt rb xs h)
