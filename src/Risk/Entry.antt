-- ===== src/Risk/Entry.antt =====
-- When `check_entry` lets an entry through: rust/crates/risk_engine/src/lib.rs.
use ibkr_bot.Base.{
  ℕ, nat_eq, Bool, true, false, List, ◌≡◌, ◌↔◌, refl, contains, arith, inl, inr, Bool-cases,
}
use ibkr_bot.Base.Result.{Result, ok, ◌>>◌, reject_if}
use ibkr_bot.Base.Float.{Float}
use ibkr_bot.Core.Types.{SymbolId, RejectReason, pdt_violation}
use ibkr_bot.Risk.Pdt.{would_violate}
use ibkr_bot.Risk.Exposure.{check_new_position}
use ibkr_bot.Risk.Blocklist.{World, reload_if_needed, is_blocked}
use ibkr_bot.Risk.State.{RiskState, check_entry, check_rest, should_terminate}

reject_thrice :
    (a b c : Bool) (d e g : RejectReason) (rest : Result RejectReason (Unit {0}))
    → ((reject_if a d >> reject_if b e >> reject_if c g >> rest) ≡ ok tt)
      ↔ ((a ≡ false) × (b ≡ false) × (c ≡ false) × (rest ≡ ok tt))
reject_thrice true b c d e g rest = ground arith
reject_thrice false true c d e g rest = ground arith
reject_thrice false false true d e g rest = ground arith
reject_thrice false false false d e g rest = ground arith

module _ {F : Type 0} ⦃f : Float F⦄ where
  -- An entry goes through exactly if the bot trades, neither blocklist has the symbol once the file is
  -- reloaded, the loss limit is not reached, one more day trade is allowed, and the exposure is.
  pub check_entry-eq-ok_iff :
      (w : World) (r : RiskState F) (id : SymbolId) (held : List SymbolId) (today : ℕ)
      → ((check_entry w r id held today).0 ≡ ok tt) ↔ (
          (r.monitor_only ≡ false)
          × (contains r.blocklist id ≡ false)
          × (is_blocked (reload_if_needed w r.blocklist_loader) id ≡ false)
          × (should_terminate r ≡ false)
          × (would_violate r.pdt_guard today ≡ false)
          × (check_new_position r.exposure_validator id held ≡ ok tt))
  unfolding check_entry check_rest should_terminate
  check_entry-eq-ok_iff w r id held today = elim (Bool-cases r.monitor_only) [
    | inl t ↦ rw t (ground arith)
    | inr t ↦ elim (Bool-cases (contains r.blocklist id)) [
      | inl u ↦ rw (t, u) (ground arith)
      | inr u ↦
          let rest =
            reject_thrice (is_blocked (reload_if_needed w r.blocklist_loader) id)
              (should_terminate r) (would_violate r.pdt_guard today) RejectReason.blocklist
              RejectReason.max_daily_loss pdt_violation
              (check_new_position r.exposure_validator id held) in
          rw (t, u)
            (
              λ h. let q = rest.0 h in (refl, refl, q.0, q.1, q.2, q.3),
              λ h. rest.1 (h.2, h.3, h.4, h.5),
            )
    ]
  ]
