-- ===== src/Core/TimeBuffer/Runs.antt =====
-- Any sequence of calls on a ring buffer: rust/crates/core_types/src/time_buffer.rs.
use mathlib.Core.Path.{subst}
use ibkr_bot.Base.{ℕ, nat_eq, List, [], ◌∷◌, ◌+◌, ◌-◌, ◌≡◌, refl, length, arith, map}
use ibkr_bot.Core.TimeBuffer.{TimeRingBuffer, new, push, prune_expired, len, iter}
use ibkr_bot.Core.TimeBuffer.Refine.{Holds, new-Holds, push_last, push-Holds}
use ibkr_bot.Core.TimeBuffer.Drain.{drop_old, prune_expired-Holds, len-length, iter_lem}

-- The calls that change a buffer.
pub data Call (A : Type 0) : Type 0 where
  pushes : ℕ → A → Call A
  prunes : ℕ → Call A

module _ {A : Type 0} where
  unfoldable pub run : TimeRingBuffer A → List (Call A) → TimeRingBuffer A
  run rb [] = rb
  run rb (pushes ts item ∷ cs) = run (push rb ts item) cs
  run rb (prunes now ∷ cs) = run (prune_expired rb now) cs

  -- The same calls on the list of the entries, oldest first.
  pub run_entries : ℕ → ℕ → List (ℕ × A) → List (Call A) → List (ℕ × A)
  run_entries room window xs [] = xs
  run_entries room window xs (pushes ts item ∷ cs) =
      run_entries room window (push_last room xs (ts, item)) cs
  run_entries room window xs (prunes now ∷ cs) =
      run_entries room window (drop_old (now - window) xs) cs

  abbrev IsSized : ℕ → ℕ → TimeRingBuffer A → Type 0
  IsSized room window rb = (rb.capacity ≡ room + 1) × (rb.window_micros ≡ window)

new-IsSized : (A : Type 0) (room window : ℕ) → IsSized {A = A} room window (new room window)
unfolding new
new-IsSized A room window = (refl, refl)

module _ {A : Type 0} where
  push-IsSized :
      (room window ts : ℕ) (item : A) (rb : TimeRingBuffer A)
      → IsSized room window rb
      → IsSized room window (push rb ts item)
  unfolding push
  push-IsSized room window ts item rb s = s

  prune_expired-IsSized :
      (room window now : ℕ) (rb : TimeRingBuffer A)
      → IsSized room window rb
      → IsSized room window (prune_expired rb now)
  unfolding prune_expired
  prune_expired-IsSized room window now rb s = ground arith

  run-Holds :
      (room window : ℕ) (rb : TimeRingBuffer A) (xs : List (ℕ × A)) (cs : List (Call A))
      → IsSized room window rb
      → Holds rb xs
      → Holds (run rb cs) (run_entries room window xs cs)
  unfolding run run_entries
  run-Holds room window rb xs [] s h = h
  run-Holds room window rb xs (pushes ts item ∷ cs) s h =
      let same : rb.capacity - 1 ≡ room = omega arith in
      run-Holds room window (push rb ts item) (push_last room xs (ts, item)) cs
        (push-IsSized room window ts item rb s)
        (subst (λ n. Holds (push rb ts item) (push_last n xs (ts, item))) same
          (push-Holds rb xs ts item h))
  run-Holds room window rb xs (prunes now ∷ cs) s h =
      run-Holds room window (prune_expired rb now) (drop_old (now - window) xs) cs
        (prune_expired-IsSized room window now rb s)
        (subst (λ w. Holds (prune_expired rb now) (drop_old (now - w) xs)) s.1
          (prune_expired-Holds rb xs now h))

  -- After any pushes and prunings of a new buffer its length and its iterator are those of the list
  -- on which a push drops the oldest entry where there is no room, and a pruning the expired ones at
  -- the front.
  pub run_entries_lem :
      (max_elements window : ℕ) (cs : List (Call A))
      → let rb = run (new max_elements window) cs in
        let xs = run_entries max_elements window [] cs in
        (len rb ≡ length xs) × (iter rb ≡ map (λ e. e.1) xs)
  run_entries_lem max_elements window cs =
      let h =
        run-Holds max_elements window (new max_elements window) [] cs
          (new-IsSized A max_elements window) (new-Holds max_elements window) in
      (len-length _ _ h, iter_lem _ _ h)
