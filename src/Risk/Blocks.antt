-- ===== src/Risk/Blocks.antt =====
-- A symbol with a blocking corporate action stays blocked: rust/crates/risk_engine/src/lib.rs.
use ibkr_bot.Base.{
  ℕ, nat_eq, true, not, some, List, [], ◌∷◌, ◌≡◌, ap, ◌&&◌, refl, ◌==◌, ◌||◌, if◌then◌else◌,
  contains, arith, inl, inr, Bool-cases,
}
use ibkr_bot.Base.Map.{lookup, lookup-insert}
use ibkr_bot.Base.Result.{err}
use ibkr_bot.Base.Float.{Float}
use ibkr_bot.Core.Types.{
  SymbolId, CorporateAction, block, LiquidityConfig, RejectReason, corporate_action_block,
}
use ibkr_bot.Risk.Blocklist.{World}
use ibkr_bot.Risk.State.{
  RiskState, new_risk_state, update_risk_limits, set_risk_ladder, update_pnl, set_corporate_action,
  block_symbol, unblock_symbol, set_monitor_only, rebuild_state, check_entry, is_block, add_to,
  take_from,
}
use ibkr_bot.Risk.History.{
  Call, sets_ladder, updates_pnl, sets_action, blocks, unblocks, sets_monitor, enters, rebuilds,
  step, run,
}

contains-of_same :
    (k j : SymbolId) (ids : List SymbolId) → (k == j) ≡ true → contains ids k ≡ contains ids j
contains-of_same k j ids h = ap (λ x. contains ids x) ((nat_eq.same_iff k j).0 h)

contains-add_to :
    (k j : SymbolId) (ids : List SymbolId) → contains (add_to k ids) j ≡ (k == j || contains ids j)
contains-add_to k j ids = elim (Bool-cases (contains ids k)) [
  | inl t ↦ rw t (ground (arith, contains-of_same k j ids))
  | inr t ↦ rw t refl
]

contains-take_from :
    (k j : SymbolId) (ids : List SymbolId)
    → contains (take_from k ids) j ≡ (not (k == j) && contains ids j)
contains-take_from k j [] = ground arith
contains-take_from k j (i ∷ ids) = ground (arith, contains-take_from k j ids)

module _ {F : Type 0} where
  -- What a corporate action blocks is on the blocklist.
  abbrev pub IsCovered : RiskState F → Type 0
  IsCovered r =
      (id : SymbolId)
      → is_block (lookup id r.corporate_actions) ≡ true
      → contains r.blocklist id ≡ true

  same_block :
      (r : RiskState F) (k id : SymbolId)
      → (k == id) ≡ true
      → is_block (lookup k r.corporate_actions) ≡ is_block (lookup id r.corporate_actions)
  same_block r k id h =
      ap (λ x. is_block (lookup x r.corporate_actions)) ((nat_eq.same_iff k id).0 h)

  set_corporate_action-IsCovered :
      (r : RiskState F) (k : SymbolId) (action : CorporateAction)
      → IsCovered r
      → IsCovered (set_corporate_action r k action)
  unfolding set_corporate_action
  set_corporate_action-IsCovered r k action v id h = elim (Bool-cases (is_block (some action))) [
    | inl t ↦
        rw (t, contains-add_to k id r.blocklist)
          (ground (arith, v id, lookup-insert k id action r.corporate_actions, h))
    | inr t ↦ rw t (ground (arith, v id, lookup-insert k id action r.corporate_actions, h))
  ]

  unblock_symbol-IsCovered :
      (r : RiskState F) (k : SymbolId) → IsCovered r → IsCovered (unblock_symbol r k)
  unfolding unblock_symbol
  unblock_symbol-IsCovered r k v id h =
      elim (Bool-cases (is_block (lookup k r.corporate_actions))) [
        | inl t ↦ rw t (v id (rw t at h))
        | inr t ↦
            let at : is_block (lookup id r.corporate_actions) ≡ true = rw t at h in
            rw (t, contains-take_from k id r.blocklist)
              (ground (arith, v id at, at, t, same_block r k id))
      ]

module _ {F : Type 0} ⦃f : Float F⦄ where
  step-IsCovered : (r : RiskState F) (call : Call F) → IsCovered r → IsCovered (step r call)
  unfolding step set_risk_ladder update_risk_limits update_pnl block_symbol set_monitor_only
      rebuild_state check_entry
  step-IsCovered r (sets_ladder ladder) v = v
  step-IsCovered r (updates_pnl pnl) v = v
  step-IsCovered r (sets_action k action) v = set_corporate_action-IsCovered r k action v
  step-IsCovered r (blocks k) v =
      λ id h. rw (contains-add_to k id r.blocklist) (ground (arith, v id h))
  step-IsCovered r (unblocks k) v = unblock_symbol-IsCovered r k v
  step-IsCovered r (sets_monitor on) v = v
  step-IsCovered r (enters w k held today) v = λ id h. ground (arith, v id)
  step-IsCovered r (rebuilds positions) v = v

  run-IsCovered : (r : RiskState F) (calls : List (Call F)) → IsCovered r → IsCovered (run r calls)
  unfolding run
  run-IsCovered r [] v = v
  run-IsCovered r (call ∷ calls) v = run-IsCovered (step r call) calls (step-IsCovered r call v)

  new-IsCovered :
      (w : World) (max_loss : F) (config : LiquidityConfig F)
      → IsCovered (new_risk_state w max_loss config)
  unfolding lookup
  new-IsCovered w max_loss config id h = cc

  -- After any calls on a new state, a symbol whose corporate action is a block is refused, with that
  -- reason or, where the bot only monitors, with that one; `unblock_symbol` does not help.
  pub check_entry-blocked :
      (w w' : World) (max_loss : F) (config : LiquidityConfig F) (calls : List (Call F))
      (id : SymbolId) (held : List SymbolId) (today : ℕ)
      → let r = run (new_risk_state w max_loss config) calls in
        lookup id r.corporate_actions ≡ some block
        → (check_entry w' r id held today).0
          ≡ err (if r.monitor_only then RejectReason.monitor_only else corporate_action_block)
  unfolding check_entry
  check_entry-blocked w w' max_loss config calls id held today h =
      let r = run (new_risk_state w max_loss config) calls in
      let covered =
        run-IsCovered (new_risk_state w max_loss config) calls (new-IsCovered w max_loss config) in
      let on : contains r.blocklist id ≡ true = covered id (rw h refl) in
      elim (Bool-cases r.monitor_only) [ inl t ↦ rw t refl | inr t ↦ rw (t, on, h) refl ]
