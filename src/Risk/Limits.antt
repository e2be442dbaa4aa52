-- ===== src/Risk/Limits.antt =====
-- When `check_new_position` lets a position in: rust/crates/risk_engine/src/exposure.rs.
use mathlib.Core.Path.{subst}
use ibkr_bot.Base.{
  sym, String, nat_eq, string_eq, pair_eq, true, false, Option, some, none, List, [], ◌∷◌, ◌≡◌, ◌↔◌,
  ◌⊎◌, refl, inl, inr, ◌==◌, arith,
}
use ibkr_bot.Base.Map.{lookup}
use ibkr_bot.Base.Result.{ok}
use ibkr_bot.Base.Float.{Float}
use ibkr_bot.Core.Types.{SymbolId}
use ibkr_bot.Risk.Exposure.{
  ExposureValidator, LetsIn, unwrap_or, sectors_differ, correlated, check_new_position,
}

sectors_differ-fwd :
    (x y : Option String)
    → sectors_differ x y ≡ true
    → (s : String) × (t : String) × (x ≡ some s) × (y ≡ some t) × ((s == t) ≡ false)
unfolding sectors_differ
sectors_differ-fwd none y h = cc
sectors_differ-fwd (some s) none h = cc
sectors_differ-fwd (some s) (some t) h = (s, t, refl, refl, ground arith)

module _ {F : Type 0} ⦃f : Float F⦄ where
  uncorrelated :
      (x : Option F)
      → f.le (f.lit 5 1) (f.lit 1 0) ≡ true
      → f.le (f.lit 5 1) (unwrap_or x (f.lit 1 0)) ≡ false
      → (corr : F) × (x ≡ some corr) × (f.le (f.lit 5 1) corr ≡ false)
  uncorrelated none half h = cc
  uncorrelated (some corr) half h = (corr, refl, h)

  LetsIn-of :
      (v : ExposureValidator F) (new_symbol e : SymbolId)
      → f.le (f.lit 5 1) (f.lit 1 0) ≡ true
      → sectors_differ (lookup new_symbol v.sector_map) (lookup e v.sector_map) ≡ true
      → correlated v new_symbol e ≡ false
      → LetsIn v new_symbol e
  unfolding correlated
  LetsIn-of v new_symbol e half differ low = record {
    apart = sectors_differ-fwd _ _ differ;
    low = uncorrelated _ half low;
  }

  LetsIn-sectors_differ :
      (v : ExposureValidator F) (new_symbol e : SymbolId)
      → LetsIn v new_symbol e
      → sectors_differ (lookup new_symbol v.sector_map) (lookup e v.sector_map) ≡ true
  unfolding sectors_differ
  LetsIn-sectors_differ v new_symbol e l =
      let (s, t, es, et, differ) = l.apart in rw (es, et, differ) refl

  LetsIn-correlated :
      (v : ExposureValidator F) (new_symbol e : SymbolId)
      → LetsIn v new_symbol e
      → correlated v new_symbol e ≡ false
  unfolding correlated
  LetsIn-correlated v new_symbol e l = let (corr, at, low) = l.low in rw (correlated, at) low

  check_one :
      (v : ExposureValidator F) (new_symbol e : SymbolId)
      → f.le (f.lit 5 1) (f.lit 1 0) ≡ true
      → (check_new_position v new_symbol (e ∷ []) ≡ ok tt) ↔ LetsIn v new_symbol e
  unfolding check_new_position
  check_one v new_symbol e half = (
    λ h. LetsIn-of v new_symbol e half (ground arith) (ground arith),
    λ l. rw (LetsIn-sectors_differ v new_symbol e l, LetsIn-correlated v new_symbol e l) refl,
  )

  -- With 0.5 at most 1.0, a position is let in exactly if none is open, or one is and the sectors and
  -- the correlation with it are known, the sectors differ and the correlation is not at least 0.5, the
  -- constant of the code: the threshold of the configuration, 0.40 by default, is not read. With two
  -- open none is.
  pub check_new_position-eq-ok_iff :
      (v : ExposureValidator F) (new_symbol : SymbolId) (open_positions : List SymbolId)
      → f.le (f.lit 5 1) (f.lit 1 0) ≡ true
      → (check_new_position v new_symbol open_positions ≡ ok tt) ↔ (
          (open_positions ≡ [])
          ⊎ ((e : SymbolId) × (open_positions ≡ e ∷ []) × LetsIn v new_symbol e))
  unfolding check_new_position
  check_new_position-eq-ok_iff v new_symbol [] half = (λ _. inl refl, λ _. refl)
  check_new_position-eq-ok_iff v new_symbol (e ∷ e' ∷ es) half =
      (λ h. cc, λ which. elim which [ inl e ↦ cc | inr (x, p, l) ↦ cc ])
  check_new_position-eq-ok_iff v new_symbol (e ∷ []) half = (
    λ h. inr (e, refl, (check_one v new_symbol e half).0 h),
    λ which. elim which [
      | inl p ↦ cc
      | inr (x, p, l) ↦
          let same : e ≡ x = cc in
          (check_one v new_symbol e half).1 (subst (λ y. LetsIn v new_symbol y) (sym same) l)
    ],
  )
