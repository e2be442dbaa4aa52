-- ===== src/Risk/Latch.antt =====
-- A guard that trips blocks its symbol for a while: rust/crates/risk_engine/src/guards.rs.
use mathlib.Core.Path.{subst}
use ibkr_bot.Base.{
  ℕ, nat_eq, true, false, some, none, List, [], ◌∷◌, ◌<◌, ◌≡◌, refl, ◌==◌, ==_refl, sym,
  if◌then◌else◌, ltb, All, arith, inl, inr, Bool-cases,
}
use ibkr_bot.Base.Map.{insert, lookup-insert}
use ibkr_bot.Base.Result.{err}
use ibkr_bot.Base.Float.{Float}
use ibkr_bot.Base.Int.{add_u64}
use ibkr_bot.Core.Types.{SymbolId, RejectReason}
use ibkr_bot.Risk.Guards.{
  GuardState, GuardEvaluator, Quote, Verdict, standing_block, block_for, state_of, track_state,
  track_event, failed_guard, check_state, check_execution,
}

pub data Call (F : Type 0) : Type 0 where
  tracks : SymbolId → ℕ → Call F
  checks : SymbolId → ℕ → Quote F → Call F

-- A state that blocks until then for this reason.
abbrev pub Blocks : ℕ → RejectReason → GuardState → Type 0
Blocks until reason s = (s.blocked_until ≡ until) × (s.block_reason ≡ some reason)

Blocks-standing_block :
    (until ts : ℕ) (reason : RejectReason) (s : GuardState)
    → Blocks until reason s
    → ts < until
    → standing_block s ts ≡ some reason
unfolding standing_block
Blocks-standing_block until ts reason s b lt =
    let on : ltb ts s.blocked_until ≡ true = ground arith in rw on b.1

Blocks-block_for :
    (ttl ts : ℕ) (reason : RejectReason) (s : GuardState)
    → Blocks (add_u64 ts ttl) reason (block_for ttl ts reason s)
unfolding block_for
Blocks-block_for ttl ts reason s = (refl, refl)

module _ {F : Type 0} where
  abbrev pub target : Call F → SymbolId
  target (tracks symbol ts) = symbol
  target (checks symbol ts q) = symbol

  abbrev pub time : Call F → ℕ
  time (tracks symbol ts) = ts
  time (checks symbol ts q) = ts

  state_of-insert :
      (g : GuardEvaluator F) (k j : SymbolId) (s : GuardState)
      → state_of (record g { states = insert k s g.states }) j
        ≡ (if k == j then s else state_of g j)
  unfolding state_of
  state_of-insert g k j s = elim (Bool-cases (k == j)) [
    | inl t ↦ rw (state_of, lookup-insert k j s g.states, t)
    | inr t ↦ rw (t, state_of, lookup-insert k j s g.states, t)
  ]

  -- The symbol is blocked.
  abbrev pub IsBlocked : GuardEvaluator F → SymbolId → ℕ → RejectReason → Type 0
  IsBlocked g symbol until reason = Blocks until reason (state_of g symbol)

  insert-IsBlocked :
      (g : GuardEvaluator F) (k until : ℕ) (reason : RejectReason) (s : GuardState)
      → Blocks until reason s
      → IsBlocked (record g { states = insert k s g.states }) k until reason
  insert-IsBlocked g k until reason s b = rw (state_of-insert g k k s, ==_refl k) b

  track_event-IsBlocked :
      (g : GuardEvaluator F) (k until ts : ℕ) (reason : RejectReason)
      → IsBlocked g k until reason
      → ts < until
      → ((track_event g k ts).0 ≡ err reason) × IsBlocked (track_event g k ts).1 k until reason
  unfolding track_event
  track_event-IsBlocked g k until ts reason b lt =
      let s = record (state_of g k) { last_update_ts = ts } in
      let on = Blocks-standing_block until ts reason s b lt in
      (rw (on, track_state), rw (on, track_state) (insert-IsBlocked g k until reason s b))

module _ {F : Type 0} ⦃f : Float F⦄ where
  unfoldable pub answer : GuardEvaluator F → Call F → Verdict
  answer g (tracks symbol ts) = (track_event g symbol ts).0
  answer g (checks symbol ts q) = (check_execution g symbol ts q).0

  unfoldable pub after : GuardEvaluator F → Call F → GuardEvaluator F
  after g (tracks symbol ts) = (track_event g symbol ts).1
  after g (checks symbol ts q) = (check_execution g symbol ts q).1

  -- What the calls for one symbol return, the calls for others in between.
  pub answers : SymbolId → GuardEvaluator F → List (Call F) → List Verdict
  answers symbol g [] = []
  answers symbol g (call ∷ calls) =
      let rest = answers symbol (after g call) calls in
      if target call == symbol then answer g call ∷ rest else rest

  check_execution-IsBlocked :
      (g : GuardEvaluator F) (k until ts : ℕ) (q : Quote F) (reason : RejectReason)
      → IsBlocked g k until reason
      → ts < until
      → ((check_execution g k ts q).0 ≡ err reason)
        × IsBlocked (check_execution g k ts q).1 k until reason
  unfolding check_execution
  check_execution-IsBlocked g k until ts q reason b lt =
      let s = state_of g k in
      let on = Blocks-standing_block until ts reason s b lt in
      (rw (on, check_state), rw (on, check_state) (insert-IsBlocked g k until reason s b))

  after-other :
      (g : GuardEvaluator F) (call : Call F) (symbol until : ℕ) (reason : RejectReason)
      → (target call == symbol) ≡ false
      → IsBlocked g symbol until reason
      → IsBlocked (after g call) symbol until reason
  unfolding after track_event check_execution
  after-other g (tracks k ts) symbol until reason ne b = rw (state_of-insert g k symbol, ne) b
  after-other g (checks k ts q) symbol until reason ne b = rw (state_of-insert g k symbol, ne) b

  after-same :
      (g : GuardEvaluator F) (call : Call F) (until : ℕ) (reason : RejectReason)
      → time call < until
      → IsBlocked g (target call) until reason
      → (answer g call ≡ err reason) × IsBlocked (after g call) (target call) until reason
  unfolding after answer
  after-same g (tracks k ts) until reason lt b = track_event-IsBlocked g k until ts reason b lt
  after-same g (checks k ts q) until reason lt b =
      check_execution-IsBlocked g k until ts q reason b lt

  abbrev pub IsEarly : SymbolId → ℕ → Call F → Type 0
  IsEarly symbol until call = (target call == symbol) ≡ true → time call < until

  answers-IsBlocked :
      (g : GuardEvaluator F) (symbol until : ℕ) (reason : RejectReason) (calls : List (Call F))
      → IsBlocked g symbol until reason
      → All (IsEarly symbol until) calls
      → All (λ v. v ≡ err reason) (answers symbol g calls)
  unfolding answers
  answers-IsBlocked g symbol until reason [] b _ = tt
  answers-IsBlocked g symbol until reason (call ∷ calls) b (early, es) =
      elim (Bool-cases (target call == symbol)) [
        | inl t ↦
            let same : target call ≡ symbol = (nat_eq.same_iff (target call) symbol).0 t in
            let at =
              after-same g call until reason (early t)
                (subst (λ j. IsBlocked g j until reason) (sym same) b) in
            rw t (
              at.0,
              answers-IsBlocked (after g call) symbol until reason calls
                  (subst (λ j. IsBlocked (after g call) j until reason) same at.1) es,
            )
        | inr t ↦ rw t (
            answers-IsBlocked (after g call) symbol until reason calls
              (after-other g call symbol until reason t b) es)
      ]

  -- Where no block stands and a check fails, the symbol's calls all fail for the same reason while
  -- their times are before the end of the block, whatever the market does and whatever is called for
  -- other symbols in between.
  pub failed_guard_latches :
      (g : GuardEvaluator F) (symbol ts : ℕ) (q : Quote F) (reason : RejectReason)
      (calls : List (Call F))
      → standing_block (state_of g symbol) ts ≡ none
      → failed_guard g.config ts q ≡ some reason
      → All (IsEarly symbol (add_u64 ts g.config.ttl_ms)) calls
      → ((check_execution g symbol ts q).0 ≡ err reason)
        × All (λ v. v ≡ err reason) (answers symbol (check_execution g symbol ts q).1 calls)
  unfolding check_execution
  failed_guard_latches g symbol ts q reason calls free fails early =
      let s = block_for g.config.ttl_ms ts reason (state_of g symbol) in
      let until = add_u64 ts g.config.ttl_ms in
      (
        rw (free, fails, check_state),
        rw (free, fails, check_state)
            (answers-IsBlocked _ symbol until reason calls
              (insert-IsBlocked g symbol until reason s
                (Blocks-block_for g.config.ttl_ms ts reason (state_of g symbol)))
              early),
      )
