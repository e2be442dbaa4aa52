-- ===== src/Metrics/Latency.antt =====
-- `LatencyTracker` of rust/crates/metrics_observability/src/lib.rs. The sort is an insertion sort; the
-- index of the percentile, which the source takes in floating point, is the whole part of 95 hundredths.
use ibkr_bot.Base.{
  ℕ, Bool, true, false, Option, some, none, List, [], ◌∷◌, ◌-◌, ◌*◌, ◌/◌, min, if◌then◌else◌, ltb,
  leb, length, get_elem?,
}
use ibkr_bot.Base.Int.{add_u64}
use ibkr_bot.Metrics.Decisions.{push_bounded}

pub record LatencyTracker : Type 0 where
  pub window : List ℕ
  pub capacity : ℕ
  pub p95_cache : ℕ
  pub calls_since_last_p95 : ℕ
  pub consecutive_breach_start : Option ℕ
  pub hard_fail_triggered : Bool

abbrev pub new_latency_tracker : ℕ → LatencyTracker
new_latency_tracker capacity = record {
  window = [];
  capacity = capacity;
  p95_cache = 0;
  calls_since_last_p95 = 100;
  consecutive_breach_start = none;
  hard_fail_triggered = false;
}

unfoldable pub record_latency : LatencyTracker → ℕ → LatencyTracker
record_latency t latency_us = record t { window = push_bounded t.capacity latency_us t.window }

unfoldable pub insert_sorted : ℕ → List ℕ → List ℕ
insert_sorted x [] = x ∷ []
insert_sorted x (y ∷ ys) = if leb x y then x ∷ y ∷ ys else y ∷ insert_sorted x ys

unfoldable pub sorted : List ℕ → List ℕ
unfolding insert_sorted
sorted [] = []
sorted (x ∷ xs) = insert_sorted x (sorted xs)

abbrev pub value_at : List ℕ → ℕ → ℕ
value_at xs i = elim (get_elem? xs i) [ some x ↦ x | none ↦ 0 ]

abbrev pub percentile_95 : List ℕ → ℕ
percentile_95 xs = value_at (sorted xs) (min (length xs * 95 / 100) (length xs - 1))

-- The percentile is taken again every hundred calls.
unfoldable pub p95 : LatencyTracker → ℕ × LatencyTracker
unfolding sorted
p95 t =
    let calls = add_u64 t.calls_since_last_p95 1 in
    let fresh = record t { calls_since_last_p95 = 0 } in
    if ltb calls 100
    then (t.p95_cache, record t { calls_since_last_p95 = calls })
    else elim t.window [
      | [] ↦ (0, fresh)
      | _ ∷ _ ↦ (percentile_95 t.window, record fresh { p95_cache = percentile_95 t.window })
    ]

-- A percentile above the limit, from the time of the first of the breaches in a row.
unfoldable pub note_breach : ℕ → Option ℕ → LatencyTracker → LatencyTracker
note_breach now none t = record t { consecutive_breach_start = some now }
note_breach now (some start) t =
    if leb 5_000_000 (now - start) then record t { hard_fail_triggered = true } else t

unfoldable pub check_sla_hard_fail : ℕ → LatencyTracker → Bool × LatencyTracker
unfolding p95 note_breach
check_sla_hard_fail now t =
    let asked = p95 t in
    let after =
      if ltb 25_000 asked.0
      then note_breach now asked.1.consecutive_breach_start asked.1
      else record asked.1 { consecutive_breach_start = none } in
    (after.hard_fail_triggered, after)
