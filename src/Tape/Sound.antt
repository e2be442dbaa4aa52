-- ===== src/Tape/Sound.antt =====
-- What holds of every symbol after any calls: rust/crates/tape_engine/src/lib.rs.
use ibkr_bot.Base.{
  ℕ, Bool, true, false, List, [], ◌∷◌, ◌++◌, ◌-◌, if◌then◌else◌, ◌*◌, ◌<◌, ◌≤◌, ◌≡◌, refl, arith,
  leb, length, All, length-append,
}
use ibkr_bot.Base.Map.{Entries}
use ibkr_bot.Base.Float.{Float}
use ibkr_bot.Base.Int.{is_zero}
use ibkr_bot.Core.Types.{ColdStartState, cold_start, warm_active, full_active}
use ibkr_bot.Core.Accounting.{compute_unrealized_pnl}
use ibkr_bot.Risk.Guards.{GuardConfig}
use ibkr_bot.Risk.Sizing.{PricingModel}
use ibkr_bot.Risk.State.{RiskState}
use ibkr_bot.Tape.State.{
  SymbolState, TapeConfig, new_tape_engine, warm_step, cold_start_step, ring_buffer_capacity,
}
use ibkr_bot.Tape.Events.{
  drop_before, pop_front, remember, tick_state, fill_state, apply_snapshot, reset_cold, flatten,
}
use ibkr_bot.Tape.History.{Call, run}
use ibkr_bot.Tape.Steps.{Closed, Allows, run-P}

length-drop_before-le :
    {F : Type 0} (cutoff : ℕ) (history : List (ℕ × F))
    → length (drop_before cutoff history) ≤ length history
unfolding drop_before
length-drop_before-le cutoff [] = omega arith
length-drop_before-le cutoff ((ts, price) ∷ history) =
    ground (arith, length-drop_before-le cutoff history)

make_room :
    {F : Type 0} (kept : List (ℕ × F)) (x : ℕ × F)
    → length kept ≤ 2000
    → length ((if leb 2000 (length kept) then pop_front kept else kept) ++ (x ∷ [])) ≤ 2000
make_room [] x h = omega arith
make_room (y ∷ kept) x h =
    ground (arith, length-append (y ∷ kept) (x ∷ []), length-append kept (x ∷ []))

length-remember-le :
    {F : Type 0} (ts : ℕ) (price : F) (history : List (ℕ × F))
    → length history ≤ 2000
    → length (remember ts price history) ≤ 2000
unfolding remember
length-remember-le ts price history h =
    let kept = drop_before (ts - 30 * 1_000_000) history in
    let fewer = length-drop_before-le (ts - 30 * 1_000_000) history in
    make_room kept (ts, price) (omega arith)

module _ {F : Type 0} ⦃f : Float F⦄ where
  -- The history fits its buffer, a flat position carries no unrealised profit, and a symbol that is
  -- warming up has seen fewer than a hundred updates.
  pub record IsSound (s : SymbolState F) : Type 0 where
    pub fits : length s.trade_history ≤ ring_buffer_capacity
    pub flat : is_zero s.position ≡ true → s.current_unrealized_pnl ≡ f.lit 0 0
    pub warming : s.cold_start_state ≡ warm_active → s.ticks_in_warm_state < 100

  IsSound-Closed : Closed IsSound
  IsSound-Closed = record {
    fresh = record { fits = omega arith; flat = λ _. refl; warming = λ _. omega arith };
    traded = λ e s ts price v.
        unfold tick_state in
        record {
          fits = length-remember-le ts price s.trade_history v.fits;
          flat = v.flat;
          warming = v.warming;
        };
    marked = λ s pnl moved v. record {
      fits = v.fits;
      flat = λ z. ground (arith, moved, z);
      warming = v.warming;
    };
    reported = λ s report price v.
        unfold fill_state compute_unrealized_pnl in
        record { fits = v.fits; flat = λ z. rw z refl; warming = v.warming };
    quoted = λ s snap v.
        unfold apply_snapshot in record { fits = v.fits; flat = v.flat; warming = v.warming };
    reset = λ s v.
        unfold reset_cold in record { fits = v.fits; flat = v.flat; warming = λ w. ground arith };
    flattened =
        λ s v. unfold flatten in record { fits = v.fits; flat = λ _. refl; warming = v.warming };
    placed = λ s p v zero. record { fits = v.fits; flat = λ _. zero; warming = v.warming };
  }

  warm_step-IsSound : (c : ColdStartState) (s : SymbolState F) → IsSound s → IsSound (warm_step c s)
  unfolding warm_step
  warm_step-IsSound cold_start s v = record {
    fits = v.fits;
    flat = v.flat;
    warming = λ _. omega arith;
  }
  warm_step-IsSound warm_active s v = record {
    fits = v.fits;
    flat = v.flat;
    warming = λ w. ground arith;
  }
  warm_step-IsSound full_active s v = v

  cold_start_step-IsSound :
      (is_surge : Bool) (s : SymbolState F) → IsSound s → IsSound (cold_start_step is_surge s)
  unfolding cold_start_step
  cold_start_step-IsSound true s v = record {
    fits = v.fits;
    flat = v.flat;
    warming = λ w. ground arith;
  }
  cold_start_step-IsSound false s v = warm_step-IsSound s.cold_start_state s v

  any-Allows : Allows IsSound IsSound-Closed (λ _. Unit {0})
  any-Allows = record {
    tiered = λ symbol tier s _ v. record { fits = v.fits; flat = v.flat; warming = v.warming };
    informed = λ ctx s _ v. record { fits = v.fits; flat = v.flat; warming = v.warming };
    analysed = λ symbol x s _ v. record { fits = v.fits; flat = v.flat; warming = v.warming };
    warmed = λ symbol is_surge s _ v. cold_start_step-IsSound is_surge s v;
  }

  allowed_everywhere : (calls : List (Call F)) → All (λ _. Unit {0}) calls
  allowed_everywhere [] = tt
  allowed_everywhere (call ∷ calls) = (tt, allowed_everywhere calls)

  -- After any sequence of calls of a new engine, every symbol's trade history fits its buffer, a flat
  -- position carries no unrealised profit, and a symbol that warms up has seen fewer than 100 updates.
  pub run-IsSound :
      (market_day : ℕ → ℕ) (r : RiskState F) (guards : GuardConfig F) (config : TapeConfig F)
      (pricing : PricingModel F) (calls : List (Call F))
      → Entries
          (λ _ s. IsSound s)
          (run market_day (new_tape_engine r guards config pricing) calls).symbol_states
  run-IsSound market_day r guards config pricing calls =
      run-P IsSound IsSound-Closed market_day (λ _. Unit {0}) any-Allows
        (new_tape_engine r guards config pricing) calls (allowed_everywhere calls) tt
