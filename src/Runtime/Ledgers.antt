-- ===== src/Runtime/Ledgers.antt =====
-- The tape engine, the OMS task and the risk task hear the same fills:
-- rust/crates/tape_engine/src/lib.rs and rust/crates/app_runtime/src/lib.rs.
use mathlib.Core.Path.{subst}
use ibkr_bot.Base.{
  ℕ, nat_eq, Bool, true, false, Option, some, none, List, [], ◌∷◌, ◌≡◌, ◌∙◌, ap, sym, refl, arith,
  ◌==◌, inl, inr, Bool-cases, if◌then◌else◌,
}
use ibkr_bot.Base.Map.{Map, lookup, insert, lookup-insert}
use ibkr_bot.Base.Result.{ok, err}
use ibkr_bot.Base.Float.{Float}
use ibkr_bot.Core.Types.{SymbolId}
use ibkr_bot.Core.Events.{Event, FillData, fill}
use ibkr_bot.Risk.Blocklist.{World}
use ibkr_bot.Risk.State.{RiskState}
use ibkr_bot.Risk.Guards.{Verdict, track_event}
use ibkr_bot.Tape.State.{SymbolState, TapeEngine, new_symbol_state, state_or_default}
use ibkr_bot.Tape.Events.{on_event, handle, process_fill, carry_unrealized}
use ibkr_bot.Runtime.Positions.{
  OmsPosition, RiskPosition, new_oms_position, new_risk_position, oms_fill, risk_fill,
}
use ibkr_bot.Runtime.OmsTask.{OmsTask, new_oms_task, oms_position_or_new, oms_event}
use ibkr_bot.Runtime.RiskTask.{
  RiskTask, new_risk_task, position_or_new, book_fill, risk_event, settle,
}
use ibkr_bot.Runtime.Agree.{Agrees, Agrees-process_fill}

-- The three holders of positions; the risk state is the one that the engine shares with the risk task.
pub record Ledgers (F : Type 0) : Type 0 where
  pub engine : TapeEngine F
  pub oms_task : OmsTask F
  pub risk_task : RiskTask F

-- A fill as an event.
abbrev pub told : {F : Type 0} → Event F × FillData F → Event F
told (event, report) = record event { kind = fill report }

module _ {V : Type 0} (fresh : V) where
  abbrev value_or : Option V → V
  value_or (some v) = v
  value_or none = fresh

  value_or-if :
      (t : Bool) (v : V) (x : Option V)
      → value_or (if t then some v else x) ≡ (if t then v else value_or x)
  value_or-if true v x = refl
  value_or-if false v x = refl

  value_or-insert :
      (m m' : Map SymbolId V) (i j : SymbolId) (v : V)
      → m' ≡ insert i v m
      → value_or (lookup j m') ≡ (if i == j then v else value_or (lookup j m))
  value_or-insert m m' i j v h =
      ap (λ x. value_or (lookup j x)) h
      ∙ ap value_or (lookup-insert i j v m)
      ∙ value_or-if (i == j) v (lookup j m)

module _ {F : Type 0} ⦃f : Float F⦄ where
  -- The tasks at their start, beside an engine.
  abbrev pub starting : TapeEngine F → Ledgers F
  starting e = record { engine = e; oms_task = new_oms_task; risk_task = new_risk_task }

  Agrees-moved :
      {s s' : SymbolState F} {o o' : OmsPosition F} {r r' : RiskPosition F}
      → s' ≡ s
      → o' ≡ o
      → r' ≡ r
      → Agrees s o r
      → Agrees s' o' r'
  Agrees-moved {s} {s'} {o} {o'} {r} {r'} p q t v =
      subst (λ x. Agrees x o' r') (sym p)
        (subst (λ y. Agrees s y r') (sym q) (subst (λ z. Agrees s o z) (sym t) v))

  state_or_default-other :
      (i j : SymbolId) (s : SymbolState F) (states : Map SymbolId (SymbolState F))
      → (i == j) ≡ false
      → state_or_default (insert i s states) j ≡ state_or_default states j
  unfolding state_or_default
  state_or_default-other i j s states apart =
      value_or-insert new_symbol_state states (insert i s states) i j s refl ∙ rw apart refl

module _ {F : Type 0} ⦃f : Float F⦄ (w : World) (market_day : ℕ → ℕ) (now : ℕ) where
  -- All three hear an event.
  unfoldable pub hear : Ledgers F → Event F → Ledgers F
  hear l event =
      let engine = (on_event w market_day l.engine event).1 in
      let step = risk_event market_day event event.kind l.risk_task engine.risk_state in
      record {
        engine = record engine { risk_state = step.risk };
        oms_task = oms_event now event event.kind l.oms_task;
        risk_task = step.task;
      }

  abbrev pub hear_all : Ledgers F → List (Event F × FillData F) → Ledgers F
  hear_all l [] = l
  hear_all l (e ∷ es) = hear_all (hear l (told e)) es

  -- The tape engine refuses none of the fills, which it does while a guard blocks their symbol.
  abbrev pub RefusesNone : Ledgers F → List (Event F × FillData F) → Type 0
  RefusesNone l [] = Unit
  RefusesNone l (e ∷ es) =
      ((on_event w market_day l.engine (told e)).0 ≡ ok tt) × RefusesNone (hear l (told e)) es

  abbrev pub AgreeOn : Ledgers F → SymbolId → Type 0
  AgreeOn l symbol =
      Agrees (state_or_default l.engine.symbol_states symbol)
        (oms_position_or_new l.oms_task symbol) (position_or_new l.risk_task symbol)

  on_event-filled :
      (e : TapeEngine F) (event : Event F) (report : FillData F)
      → (on_event w market_day e (told (event, report))).0 ≡ ok tt
      → (on_event w market_day e (told (event, report))).1.symbol_states
        ≡ (process_fill e event.symbol_id report).1.symbol_states
  unfolding on_event handle process_fill carry_unrealized
  on_event-filled e event report passes =
      go (track_event e.guard_evaluator event.symbol_id event.ts_src).0 refl
    where
      go :
          (r : Verdict)
          → (track_event e.guard_evaluator event.symbol_id event.ts_src).0 ≡ r
          → (on_event w market_day e (told (event, report))).1.symbol_states
            ≡ (process_fill e event.symbol_id report).1.symbol_states
      go (ok u) h = rw (on_event, h) refl
      go (err reason) h =
          let refused : (on_event w market_day e (told (event, report))).0 ≡ err reason =
            rw (on_event, h) refl in
          cc

  settle-positions :
      (today : ℕ) (symbol : SymbolId) (report : FillData F) (t : RiskTask F) (r : RiskState F)
      → (settle today symbol report t r).0.positions ≡ t.positions
  unfolding settle
  settle-positions today symbol report t r = ground arith

  risk_event-positions :
      (t : RiskTask F) (event : Event F) (report : FillData F) (r : RiskState F)
      → (risk_event market_day event (fill report) t r).task.positions
        ≡ insert event.symbol_id (risk_fill (position_or_new t event.symbol_id) report) t.positions
  unfolding risk_event book_fill
  risk_event-positions t event report r = settle-positions (market_day event.ts_src) _ report _ r

  hear-risk :
      (l : Ledgers F) (event : Event F) (report : FillData F) (j : SymbolId)
      → position_or_new (hear l (told (event, report))).risk_task j ≡ (
          if event.symbol_id == j
          then risk_fill (position_or_new l.risk_task event.symbol_id) report
          else position_or_new l.risk_task j)
  unfolding hear
  hear-risk l event report j =
      value_or-insert new_risk_position l.risk_task.positions _ event.symbol_id j _ (
        risk_event-positions l.risk_task (told (event, report)) report
          (on_event w market_day l.engine (told (event, report))).1.risk_state)

  hear-oms :
      (l : Ledgers F) (event : Event F) (report : FillData F) (j : SymbolId)
      → oms_position_or_new (hear l (told (event, report))).oms_task j ≡ (
          if event.symbol_id == j
          then oms_fill (oms_position_or_new l.oms_task event.symbol_id) report
          else oms_position_or_new l.oms_task j)
  unfolding hear oms_event
  hear-oms l event report j =
      value_or-insert new_oms_position l.oms_task.oms_positions _ event.symbol_id j _ refl

  process_fill-other :
      (e : TapeEngine F) (i j : SymbolId) (report : FillData F)
      → (i == j) ≡ false
      → state_or_default (process_fill e i report).1.symbol_states j
        ≡ state_or_default e.symbol_states j
  unfolding process_fill carry_unrealized
  process_fill-other e i j report apart = state_or_default-other i j _ e.symbol_states apart

  hear-AgreeOn :
      (l : Ledgers F) (event : Event F) (report : FillData F)
      → (on_event w market_day l.engine (told (event, report))).0 ≡ ok tt
      → ((j : SymbolId) → AgreeOn l j)
      → (j : SymbolId) → AgreeOn (hear l (told (event, report))) j
  unfolding hear
  hear-AgreeOn l event report passes v j =
      let i = event.symbol_id in
      let filled = ap (λ m. state_or_default m j) (on_event-filled l.engine event report passes) in
      let oms = hear-oms l event report j in
      let risk = hear-risk l event report j in
      elim (Bool-cases (i == j)) [
        | inl t ↦
            let same : i ≡ j = (nat_eq.same_iff i j).0 t in
            let tape =
              filled
              ∙ ap (λ k. state_or_default (process_fill l.engine i report).1.symbol_states k)
                  (sym same) in
            Agrees-moved tape (oms ∙ rw t refl) (risk ∙ rw t refl) (
              Agrees-process_fill l.engine i (oms_position_or_new l.oms_task i)
                (position_or_new l.risk_task i) report (v i))
        | inr t ↦
            Agrees-moved (filled ∙ process_fill-other l.engine i j report t) (oms ∙ rw t refl)
              (risk ∙ rw t refl) (v j)
      ]

  hear_all-AgreeOn :
      (l : Ledgers F) (es : List (Event F × FillData F))
      → RefusesNone l es
      → ((j : SymbolId) → AgreeOn l j)
      → (j : SymbolId) → AgreeOn (hear_all l es) j
  hear_all-AgreeOn l [] passes v = v
  hear_all-AgreeOn l ((event, report) ∷ es) (pass, passes) v =
      hear_all-AgreeOn (hear l (told (event, report))) es passes
        (hear-AgreeOn l event report pass v)

  -- When the three hear the same fills, of any symbols, from their starts on, and the tape engine
  -- refuses none of them, then they hold the same position and the same average cost of every symbol,
  -- and the tape engine and the risk task the same realised profit of it.
  pub ledgers_agree :
      (e : TapeEngine F) (es : List (Event F × FillData F)) (symbol : SymbolId)
      → e.symbol_states ≡ []
      → RefusesNone (starting e) es
      → AgreeOn (hear_all (starting e) es) symbol
  unfolding state_or_default lookup
  ledgers_agree e es symbol fresh passes =
      hear_all-AgreeOn (starting e) es passes
        (λ j. Agrees-moved (ap (λ m. state_or_default m j) fresh) refl refl (record {
          oms_qty = refl;
          oms_cost = refl;
          risk_qty = refl;
          risk_cost = refl;
          realized = refl;
        }))
        symbol
