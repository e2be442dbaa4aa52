-- ===== src/Tape/Refusals.antt =====
-- When no entry can pass: rust/crates/tape_engine/src/lib.rs, as app_runtime/src/lib.rs calls it.
use mathlib.Core.Path.{subst}
use ibkr_bot.Base.{ℕ, nat_eq, Bool, true, false, List, ◌≡◌, ◌≢◌, ◌==◌, sym, refl, arith, All}
use ibkr_bot.Base.Map.{Entries-lookup, Entries-map_values_all}
use ibkr_bot.Base.Result.{ok, err}
use ibkr_bot.Base.Float.{Float}
use ibkr_bot.Core.Types.{a, tier_eq, ColdStartState, cold_start, warm_active, full_active}
use ibkr_bot.Core.Events.{Event, TickData, tick, reconnect}
use ibkr_bot.Risk.Blocklist.{World}
use ibkr_bot.Risk.Guards.{Verdict, GuardConfig, track_event}
use ibkr_bot.Risk.Sizing.{PricingModel}
use ibkr_bot.Risk.State.{RiskState}
use ibkr_bot.Tape.State.{
  SymbolState, TapeConfig, TapeEngine, new_tape_engine, warm_step, cold_start_step,
}
use ibkr_bot.Tape.Entry.{evaluate_entry_logic, threshold}
use ibkr_bot.Tape.Events.{
  tick_state, fill_state, apply_snapshot, reset_cold, flatten, apply_tick, process_tick, handle,
  on_event,
}
use ibkr_bot.Tape.Gates.{evaluate-pass, evaluate_entry_logic-eq-ok_iff}
use ibkr_bot.Tape.History.{Call, tiers, cold_starts, run}
use ibkr_bot.Tape.Steps.{Closed, Allows, Everywhere, apply_tick-P, run-P}

-- Whether a call puts a symbol into tier A, and whether it advances a symbol's start.
abbrev pub raises : {F : Type 0} → Call F → Bool
raises (tiers symbol tier) = tier == a
raises _ = false

abbrev pub advances : {F : Type 0} → Call F → Bool
advances (cold_starts symbol is_surge) = true
advances _ = false

module _ {F : Type 0} ⦃f : Float F⦄ where
  passes_on :
      (m : Verdict) (x : TapeEngine F) (k : Verdict × TapeEngine F)
      → (let done : Verdict × TapeEngine F = elim m [ err reason ↦ (err reason, x) | ok _ ↦ k ] in
          done.0)
        ≡ ok tt
      → k.0 ≡ ok tt
  passes_on (err e) x k h = ground arith
  passes_on (ok _) x k h = h

  -- What a tick that passes leaves: an engine before the gates that let the entry through.
  tick-passes :
      (w : World) (market_day : ℕ → ℕ) (e : TapeEngine F) (event : Event F) (trade : TickData F)
      → event.kind ≡ tick trade
      → (on_event w market_day e event).0 ≡ ok tt
      → let tracked = track_event e.guard_evaluator event.symbol_id event.ts_src in
        let counted = record e { guard_evaluator = tracked.1 } in
        (evaluate_entry_logic w
          (apply_tick counted event.symbol_id event.ts_src trade)
          event.symbol_id
          event.ts_src
          (market_day event.ts_src)).0
        ≡ ok tt
  unfolding on_event handle process_tick
  tick-passes w market_day e event trade kind h =
      let tracked = track_event e.guard_evaluator event.symbol_id event.ts_src in
      let counted = record e { guard_evaluator = tracked.1 } in
      subst (λ k. (handle w market_day counted event.symbol_id event.ts_src k).0 ≡ ok tt) kind
        (passes_on tracked.0 counted
          (handle w market_day counted event.symbol_id event.ts_src event.kind) h)

  abbrev pub LowTier : SymbolState F → Type 0
  LowTier s = (s.tier == a) ≡ false

  pub LowTier-Closed : Closed LowTier
  LowTier-Closed = record {
    fresh = refl;
    traded = λ e s ts price v. unfold tick_state in v;
    marked = λ s pnl moved v. v;
    reported = λ s report price v. unfold fill_state in v;
    quoted = λ s snap v. unfold apply_snapshot in v;
    reset = λ s v. unfold reset_cold in v;
    flattened = λ s v. unfold flatten in v;
    placed = λ s p v zero. v;
  }

  warm_step-LowTier : (c : ColdStartState) (s : SymbolState F) → LowTier s → LowTier (warm_step c s)
  unfolding warm_step
  warm_step-LowTier cold_start s v = v
  warm_step-LowTier warm_active s v = v
  warm_step-LowTier full_active s v = v

  cold_start_step-LowTier :
      (is_surge : Bool) (s : SymbolState F) → LowTier s → LowTier (cold_start_step is_surge s)
  unfolding cold_start_step
  cold_start_step-LowTier true s v = v
  cold_start_step-LowTier false s v = warm_step-LowTier s.cold_start_state s v

  low-Allows : Allows LowTier LowTier-Closed (λ call. raises call ≡ false)
  low-Allows = record {
    tiered = λ symbol tier s h v. h;
    informed = λ ctx s _ v. v;
    analysed = λ symbol x s _ v. v;
    warmed = λ symbol is_surge s _ v. cold_start_step-LowTier is_surge s v;
  }

  -- In an engine where no symbol is of tier A, no tick passes.
  pub low_tier-refuses :
      (w : World) (market_day : ℕ → ℕ) (e : TapeEngine F) (event : Event F) (trade : TickData F)
      → event.kind ≡ tick trade
      → Everywhere LowTier LowTier-Closed e
      → (on_event w market_day e event).0 ≢ ok tt
  low_tier-refuses w market_day e event trade kind low h =
      let tracked = track_event e.guard_evaluator event.symbol_id event.ts_src in
      let counted = record e { guard_evaluator = tracked.1 } in
      let after = apply_tick counted event.symbol_id event.ts_src trade in
      let still =
        apply_tick-P LowTier LowTier-Closed counted event.symbol_id event.ts_src trade low in
      let (_, state, found, tier) =
        evaluate-pass w after event.symbol_id event.ts_src (market_day event.ts_src)
          (tick-passes w market_day e event trade kind h) in
      let not_a =
        Entries-lookup (λ _ s. LowTier s) event.symbol_id state after.symbol_states still found in
      cc

  -- If no call puts a symbol into tier A, then after any calls of a new engine no tick passes.
  pub no_tier_a-refuses :
      (w : World) (market_day : ℕ → ℕ) (r : RiskState F) (guards : GuardConfig F)
      (config : TapeConfig F) (pricing : PricingModel F) (calls : List (Call F)) (event : Event F)
      (trade : TickData F)
      → All (λ call. raises call ≡ false) calls
      → event.kind ≡ tick trade
      → let e = run market_day (new_tape_engine r guards config pricing) calls in
        (on_event w market_day e event).0 ≢ ok tt
  no_tier_a-refuses w market_day r guards config pricing calls event trade low kind =
      low_tier-refuses w market_day (run market_day (new_tape_engine r guards config pricing) calls)
        event trade kind
        (run-P LowTier LowTier-Closed market_day (λ call. raises call ≡ false) low-Allows
          (new_tape_engine r guards config pricing) calls low tt)

  abbrev Cold : SymbolState F → Type 0
  Cold s = s.cold_start_state ≡ cold_start

  Cold-Closed : Closed Cold
  Cold-Closed = record {
    fresh = refl;
    traded = λ e s ts price v. unfold tick_state in v;
    marked = λ s pnl moved v. v;
    reported = λ s report price v. unfold fill_state in v;
    quoted = λ s snap v. unfold apply_snapshot in v;
    reset = λ s v. unfold reset_cold in refl;
    flattened = λ s v. unfold flatten in v;
    placed = λ s p v zero. v;
  }

  cold-Allows : Allows Cold Cold-Closed (λ call. advances call ≡ false)
  cold-Allows = record {
    tiered = λ symbol tier s _ v. v;
    informed = λ ctx s _ v. v;
    analysed = λ symbol x s _ v. v;
    warmed = λ symbol is_surge s h v. ground arith;
  }

  cold-threshold :
      (config : TapeConfig F) (target : Bool) (state : SymbolState F) (limit : F)
      → state.tier ≡ a
      → Cold state
      → threshold config target state.tier state.cold_start_state ≢ ok limit
  unfolding threshold
  cold-threshold config target state limit tier cold h = let h' = rw (tier, cold) at h in cc

  cold-refuses :
      (w : World) (market_day : ℕ → ℕ) (e : TapeEngine F) (event : Event F) (trade : TickData F)
      → event.kind ≡ tick trade
      → Everywhere Cold Cold-Closed e
      → (on_event w market_day e event).0 ≢ ok tt
  cold-refuses w market_day e event trade kind cold h =
      let tracked = track_event e.guard_evaluator event.symbol_id event.ts_src in
      let counted = record e { guard_evaluator = tracked.1 } in
      let after = apply_tick counted event.symbol_id event.ts_src trade in
      let still = apply_tick-P Cold Cold-Closed counted event.symbol_id event.ts_src trade cold in
      let (_, state, found, tier, _, _, _, late) =
        (evaluate_entry_logic-eq-ok_iff w after event.symbol_id event.ts_src
            (market_day event.ts_src)).0
          (tick-passes w market_day e event trade kind h) in
      let (limit, reached, _) = late.1 in
      cold-threshold after.config after.daily_target_reached state limit tier
        (Entries-lookup (λ _ s. Cold s) event.symbol_id state after.symbol_states still found)
        reached

  accepted-Cold :
      (m : Verdict) (x : TapeEngine F) (k : Verdict × TapeEngine F)
      → m ≡ ok tt
      → Everywhere Cold Cold-Closed k.1
      → Everywhere Cold Cold-Closed (
          let done : Verdict × TapeEngine F = elim m [ err reason ↦ (err reason, x) | ok _ ↦ k ] in
          done.1)
  accepted-Cold (err e) x k h all = ground arith
  accepted-Cold (ok _) x k h all = all

  reconnect-Cold :
      (w : World) (market_day : ℕ → ℕ) (e : TapeEngine F) (event : Event F)
      → event.kind ≡ reconnect
      → (track_event e.guard_evaluator event.symbol_id event.ts_src).0 ≡ ok tt
      → Everywhere Cold Cold-Closed (on_event w market_day e event).1
  unfolding on_event handle reset_cold
  reconnect-Cold w market_day e event kind tracked =
      let counted = record e {
        guard_evaluator = (track_event e.guard_evaluator event.symbol_id event.ts_src).1;
      } in
      accepted-Cold (track_event e.guard_evaluator event.symbol_id event.ts_src).0 counted
        (handle w market_day counted event.symbol_id event.ts_src event.kind) tracked
        (subst
          (λ k.
            Everywhere Cold Cold-Closed
              (handle w market_day counted event.symbol_id event.ts_src k).1)
          (sym kind)
          (Entries-map_values_all (λ _ s. Cold s) (λ _ s. reset_cold s) e.symbol_states
            (λ _ s. refl)))

  -- After a reconnect that the guard's event count lets in, no tick passes, whatever calls follow that
  -- do not advance a symbol's start.
  pub reconnect-refuses :
      (w v : World) (market_day : ℕ → ℕ) (e : TapeEngine F) (lost : Event F) (calls : List (Call F))
      (event : Event F) (trade : TickData F)
      → lost.kind ≡ reconnect
      → (track_event e.guard_evaluator lost.symbol_id lost.ts_src).0 ≡ ok tt
      → All (λ call. advances call ≡ false) calls
      → event.kind ≡ tick trade
      → (on_event v market_day (run market_day (on_event w market_day e lost).1 calls) event).0
        ≢ ok tt
  reconnect-refuses w v market_day e lost calls event trade kind tracked idle ticked =
      let after = (on_event w market_day e lost).1 in
      cold-refuses v market_day (run market_day after calls) event trade ticked (
        run-P Cold Cold-Closed market_day (λ call. advances call ≡ false) cold-Allows after calls
          idle (reconnect-Cold w market_day e lost kind tracked))
