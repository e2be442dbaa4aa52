-- ===== src/Tape/Gates.antt =====
-- When `evaluate_entry_logic` lets an entry through: rust/crates/tape_engine/src/lib.rs.
use ibkr_bot.Base.{
  ℕ, nat_eq, Bool, true, false, not, Option, some, none, List, contains, ◌==◌, ◌≡◌, ◌↔◌, refl, sym,
  ap, ◌∙◌, arith, inl, inr, Bool-cases, Option-cases,
}
use ibkr_bot.Base.Map.{lookup}
use ibkr_bot.Base.Result.{
  Result, ok, err, ◌>>◌, ◌>>=◌, reject_if, is_ok, both_succeed, reject_if-eq-ok_iff,
}
use ibkr_bot.Base.Float.{Float}
use ibkr_bot.Core.Types.{
  SymbolId, RejectReason, regime, anti_chase, tape_reversal, tape_score_low, net_negative, exposure,
  a, tier_eq, normal, regime_eq, DailyContext, play, context_eq, MtfAnalysis,
}
use ibkr_bot.Risk.Blocklist.{World}
use ibkr_bot.Risk.Exposure.{check_new_position}
use ibkr_bot.Risk.State.{RiskState, check_entry, check_liquidity}
use ibkr_bot.Risk.Guards.{Verdict, check_execution}
use ibkr_bot.Tape.State.{SymbolState, TapeEngine}
use ibkr_bot.Tape.Scores.{calculate_scores, check_anti_chase}
use ibkr_bot.Tape.Entry.{
  open_symbols, context_gate, mtf_gate, liquidity_gate, early_gates, late_gates, score_gate,
  threshold, net_of, entry_quote, check_exposure, evaluate_gates, evaluate_entry_logic,
}

reject_unless_iff :
    {P : Type 0} (b : Bool) (e : RejectReason) → (b ≡ true) ↔ P → (reject_if (not b) e ≡ ok tt) ↔ P
reject_unless_iff true e h = (λ _. h.0 refl, λ _. refl)
reject_unless_iff false e h = (λ q. ground arith, λ p. ground (arith, h.1 p))

is_ok_iff : (m : Verdict) → (is_ok m ≡ true) ↔ (m ≡ ok tt)
is_ok_iff (ok tt) = ground arith
is_ok_iff (err e) = ground arith

bind_iff :
    {F : Type 0} (m : Result RejectReason F) (test : F → Bool)
    → ((m >>= λ x. reject_if (test x) tape_score_low) ≡ ok tt)
      ↔ ((x : F) × (m ≡ ok x) × (test x ≡ false))
bind_iff (err e) test = (λ h. ground arith, λ (x, p, q). ground arith)
bind_iff (ok y) test = (
  λ h. (y, refl, (reject_if-eq-ok_iff (test y) tape_score_low).0 h),
  λ (x, p, q).
      let same : y ≡ x = cc in (reject_if-eq-ok_iff (test y) tape_score_low).1 (ap test same ∙ q),
)

staged_iff :
    {S P Q R : Type 0} (m g l : Verdict) (x y : S)
    → (m ≡ ok tt) ↔ P
    → (g ≡ ok tt) ↔ Q
    → (l ≡ ok tt) ↔ R
    → ((let done : Verdict × S = elim m [ err reason ↦ (err reason, x) | ok _ ↦ (g >> l, y) ] in
          done.0)
        ≡ ok tt)
      ↔ (P × Q × R)
staged_iff (err e) g l x y p q r = (λ h. ground arith, λ h. ground (arith, p.1 h.0))
staged_iff (ok _) g l x y p q r = (
  λ h. let both = (both_succeed g l q r).0 h in (p.0 refl, both.0, both.1),
  λ (_, b, c). (both_succeed g l q r).1 (b, c),
)

abbrev pub Plays : {F : Type 0} → Option (DailyContext F) → Type 0
Plays context = (ctx : DailyContext _) × (context ≡ some ctx) × (ctx.state ≡ play)

abbrev pub Confirmed : Option MtfAnalysis → Type 0
Confirmed analysis = (mtf : MtfAnalysis) × (analysis ≡ some mtf) × (mtf.mtf_pass ≡ true)

context_gate_iff : {F : Type 0} (o : Option (DailyContext F)) → (context_gate o ≡ ok tt) ↔ Plays o
unfolding context_gate
context_gate_iff none = (λ h. ground arith, λ (ctx, e, p). ground arith)
context_gate_iff (some ctx) = (
  λ h. (ctx, refl, (context_eq.same_iff ctx.state play).0 (ground arith)),
  λ (c, e, p). ground (arith, context_eq.same_iff ctx.state play),
)

mtf_gate_iff : (o : Option MtfAnalysis) → (mtf_gate o ≡ ok tt) ↔ Confirmed o
unfolding mtf_gate
mtf_gate_iff none = (λ h. ground arith, λ (m, e, p). ground arith)
mtf_gate_iff (some mtf) = (λ h. (mtf, refl, ground arith), λ (m, e, p). ground arith)

module _ {F : Type 0} ⦃f : Float F⦄ where
  -- Gates 3 to 8, as the document of the gates lists them.
  abbrev pub EarlyPass : TapeEngine F → SymbolState F → Type 0
  EarlyPass e state =
      (liquidity_gate e.risk_state state ≡ ok tt)
      × (e.regime_state ≡ normal)
      × Plays state.daily_context
      × Confirmed state.mtf_analysis
      × (check_anti_chase state ≡ false)

  early_gates_iff :
      (e : TapeEngine F) (state : SymbolState F) → (early_gates e state ≡ ok tt) ↔ EarlyPass e state
  unfolding early_gates
  early_gates_iff e state =
      let all =
        both_succeed _ _
          (both_succeed _ _
            (both_succeed _ _
              (both_succeed _ _ (λ h. h, λ h. h)
                (reject_unless_iff _ regime (regime_eq.same_iff e.regime_state normal)))
              (context_gate_iff state.daily_context))
            (mtf_gate_iff state.mtf_analysis))
          (reject_if-eq-ok_iff (check_anti_chase state) anti_chase) in
      (
        λ h. let ((((l, r), c), m), n) = all.0 h in (l, r, c, m, n),
        λ (l, r, c, m, n). all.1 ((((l, r), c), m), n),
      )

  -- The score reaches the threshold of the tier and of the state of the start.
  abbrev pub ScorePass : TapeEngine F → SymbolState F → Type 0
  ScorePass e state =
      (limit : F) × (threshold e.config e.daily_target_reached state.tier state.cold_start_state
        ≡ ok limit)
      × (f.lt (calculate_scores e.config state.tape).total_score limit ≡ false)

  score_gate_iff :
      (e : TapeEngine F) (state : SymbolState F) → (score_gate e state ≡ ok tt) ↔ ScorePass e state
  unfolding score_gate
  score_gate_iff e state =
      bind_iff (threshold e.config e.daily_target_reached state.tier state.cold_start_state)
        (λ limit. f.lt (calculate_scores e.config state.tape).total_score limit)

  abbrev pub LatePass : TapeEngine F → SymbolState F → SymbolId → List SymbolId → Type 0
  LatePass e state symbol held =
      (state.tape.is_reversal ≡ false)
      × ScorePass e state
      × (f.le (net_of e state) e.pricing_model.min_net_profit_usd ≡ false)
      × (check_new_position e.risk_state.exposure_validator symbol held ≡ ok tt)

  late_gates_iff :
      (e : TapeEngine F) (state : SymbolState F) (symbol : SymbolId) (held : List SymbolId)
      → (late_gates e state symbol held ≡ ok tt) ↔ LatePass e state symbol held
  unfolding late_gates check_exposure
  late_gates_iff e state symbol held =
      let exposed = check_new_position e.risk_state.exposure_validator symbol held in
      let all =
        both_succeed _ _
          (both_succeed _ _
            (both_succeed _ _ (reject_if-eq-ok_iff state.tape.is_reversal tape_reversal)
              (score_gate_iff e state))
            (reject_if-eq-ok_iff (f.le (net_of e state) e.pricing_model.min_net_profit_usd)
              net_negative))
          (reject_unless_iff _ exposure (is_ok_iff exposed)) in
      (λ h. let (((r, s), n), x) = all.0 h in (r, s, n, x), λ (r, s, n, x). all.1 (((r, s), n), x))

  entered-liquidity :
      (w : World) (r : RiskState F) (symbol : SymbolId) (held : List SymbolId) (today : ℕ)
      (state : SymbolState F)
      → liquidity_gate (check_entry w r symbol held today).1 state ≡ liquidity_gate r state
  unfolding check_entry liquidity_gate check_liquidity
  entered-liquidity w r symbol held today state = elim (Bool-cases r.monitor_only) [
    | inl t ↦ rw t refl
    | inr t ↦ elim (Bool-cases (contains r.blocklist symbol)) [
      | inl u ↦ rw (t, u) refl
      | inr u ↦ rw (t, u) refl
    ]
  ]

  entered-exposure :
      (w : World) (r : RiskState F) (symbol : SymbolId) (held : List SymbolId) (today : ℕ)
      → (check_entry w r symbol held today).1.exposure_validator ≡ r.exposure_validator
  unfolding check_entry
  entered-exposure w r symbol held today = elim (Bool-cases r.monitor_only) [
    | inl t ↦ rw t refl
    | inr t ↦ elim (Bool-cases (contains r.blocklist symbol)) [
      | inl u ↦ rw (t, u) refl
      | inr u ↦ rw (t, u) refl
    ]
  ]

  evaluate_gates_iff :
      (w : World) (e : TapeEngine F) (state : SymbolState F) (symbol : SymbolId) (ts_src today : ℕ)
      → let held = open_symbols 2 e.symbol_states in
        ((evaluate_gates w e state symbol ts_src today).0 ≡ ok tt) ↔ (
          ((check_entry w e.risk_state symbol held today).0 ≡ ok tt)
          × EarlyPass e state
          × ((check_execution e.guard_evaluator symbol ts_src (entry_quote state ts_src)).0 ≡ ok tt)
          × LatePass e state symbol held)
  unfolding evaluate_gates
  evaluate_gates_iff w e state symbol ts_src today =
      let held = open_symbols 2 e.symbol_states in
      let entry = check_entry w e.risk_state symbol held today in
      let entered = record e { risk_state = entry.1 } in
      let guarded = check_execution e.guard_evaluator symbol ts_src (entry_quote state ts_src) in
      let checked = record entered { guard_evaluator = guarded.1 } in
      let same_risk = entered-liquidity w e.risk_state symbol held today state in
      let same_exposure =
        ap (λ v. check_new_position v symbol held)
          (entered-exposure w e.risk_state symbol held today) in
      let early : (early_gates entered state ≡ ok tt) ↔ EarlyPass e state =
        let i = early_gates_iff entered state in
        (
          λ h. let (l, r, c, m, n) = i.0 h in (sym same_risk ∙ l, r, c, m, n),
          λ (l, r, c, m, n). i.1 (same_risk ∙ l, r, c, m, n),
        ) in
      let late : (late_gates checked state symbol held ≡ ok tt) ↔ LatePass e state symbol held =
        let i = late_gates_iff checked state symbol held in
        (
          λ h. let (r, s, n, x) = i.0 h in (r, s, n, sym same_exposure ∙ x),
          λ (r, s, n, x). i.1 (r, s, n, same_exposure ∙ x),
        ) in
      let all =
        staged_iff (entry.0 >> early_gates entered state) guarded.0
          (late_gates checked state symbol held) entered checked
          (both_succeed entry.0 (early_gates entered state) (λ h. h, λ h. h) early) (λ h. h, λ h. h)
          late in
      (λ h. let ((n, m), g, l) = all.0 h in (n, m, g, l), λ (n, m, g, l). all.1 ((n, m), g, l))

  evaluate-known :
      (w : World) (e : TapeEngine F) (state : SymbolState F) (symbol : SymbolId) (ts_src today : ℕ)
      → e.risk_state.monitor_only ≡ false
      → lookup symbol e.symbol_states ≡ some state
      → (state.tier == a) ≡ true
      → (evaluate_entry_logic w e symbol ts_src today).0
        ≡ (evaluate_gates w e state symbol ts_src today).0
  unfolding evaluate_entry_logic
  evaluate-known w e state symbol ts_src today t u v = simp (t, u, v)

  pub evaluate-pass :
      (w : World) (e : TapeEngine F) (symbol : SymbolId) (ts_src today : ℕ)
      → (evaluate_entry_logic w e symbol ts_src today).0 ≡ ok tt
      → (e.risk_state.monitor_only ≡ false)
        × (state : SymbolState F) × (lookup symbol e.symbol_states ≡ some state)
        × ((state.tier == a) ≡ true)
  unfolding evaluate_entry_logic
  evaluate-pass w e symbol ts_src today = elim (Bool-cases e.risk_state.monitor_only) [
    | inl t ↦ rw t (λ h. ground arith)
    | inr t ↦ elim (Option-cases (lookup symbol e.symbol_states)) [
      | inl u ↦ rw (t, u) (λ h. ground arith)
      | inr (state, u) ↦ elim (Bool-cases (state.tier == a)) [
        | inl v ↦ λ _. (t, state, u, v)
        | inr v ↦ rw (t, u, v) (λ h. ground arith)
      ]
    ]
  ]

  -- An entry passes exactly if trading is on, the symbol is known and of tier A, the risk state admits
  -- the entry, gates 3 to 8 pass, the guards pass, and gates 10 to 12 pass.
  pub evaluate_entry_logic-eq-ok_iff :
      (w : World) (e : TapeEngine F) (symbol : SymbolId) (ts_src today : ℕ)
      → let held = open_symbols 2 e.symbol_states in
        ((evaluate_entry_logic w e symbol ts_src today).0 ≡ ok tt) ↔ (
          (e.risk_state.monitor_only ≡ false)
          × (state : SymbolState F) × (lookup symbol e.symbol_states ≡ some state)
          × (state.tier ≡ a)
          × ((check_entry w e.risk_state symbol held today).0 ≡ ok tt)
          × EarlyPass e state
          × ((check_execution e.guard_evaluator symbol ts_src (entry_quote state ts_src)).0 ≡ ok tt)
          × LatePass e state symbol held)
  evaluate_entry_logic-eq-ok_iff w e symbol ts_src today = (
    λ h.
        let (m, state, u, v) = evaluate-pass w e symbol ts_src today h in
        let known = evaluate-known w e state symbol ts_src today m u v in
        let (n, g, x, l) = (evaluate_gates_iff w e state symbol ts_src today).0 (sym known ∙ h) in
        (m, state, u, (tier_eq.same_iff state.tier a).0 v, n, g, x, l),
    λ (m, state, u, v, n, g, x, l).
        evaluate-known w e state symbol ts_src today m u ((tier_eq.same_iff state.tier a).1 v)
        ∙ (evaluate_gates_iff w e state symbol ts_src today).1 (n, g, x, l),
  )
