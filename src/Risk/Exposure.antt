-- ===== src/Risk/Exposure.antt =====
-- `ExposureValidator` of rust/crates/risk_engine/src/exposure.rs.
use ibkr_bot.Base.{
  String, nat_eq, string_eq, pair_eq, Bool, false, Option, some, none, List, [], ◌∷◌, ◌≡◌, not,
  ◌==◌, ◌||◌, if◌then◌else◌, ltb, length, arith,
}
use ibkr_bot.Base.Map.{Map, lookup, insert}
use ibkr_bot.Base.Result.{Result, ok, err}
use ibkr_bot.Base.Float.{Float}
use ibkr_bot.Core.Types.{SymbolId, RejectReason, exposure}

pub record ExposureValidator (F : Type 0) : Type 0 where
  pub correlation_matrix : Map (SymbolId × SymbolId) F
  pub sector_map : Map SymbolId String

abbrev pub new_exposure_validator : {F : Type 0} → ExposureValidator F
new_exposure_validator = record { correlation_matrix = []; sector_map = [] }

-- The key of an unordered pair.
abbrev pub pair_key : SymbolId → SymbolId → SymbolId × SymbolId
pair_key a b = if ltb a b then (a, b) else (b, a)

abbrev pub unwrap_or : {A : Type 0} → Option A → A → A
unwrap_or none a = a
unwrap_or (some x) a = x

module _ {F : Type 0} ⦃f : Float F⦄ where
  abbrev pub sum_from : F → List F → F
  sum_from acc [] = acc
  sum_from acc (x ∷ xs) = sum_from (f.plus acc x) xs

  abbrev pub zip_times : List F → List F → List F
  zip_times (x ∷ xs) (y ∷ ys) = f.times x y ∷ zip_times xs ys
  zip_times _ _ = []

  unfoldable pub calculate_pearson : List F → List F → Option F
  calculate_pearson xs ys =
      let n = f.of_nat (length xs) in
      let sum_x = sum_from (f.lit 0 0) xs in
      let sum_y = sum_from (f.lit 0 0) ys in
      let sum_xy = sum_from (f.lit 0 0) (zip_times xs ys) in
      let sum_x2 = sum_from (f.lit 0 0) (zip_times xs xs) in
      let sum_y2 = sum_from (f.lit 0 0) (zip_times ys ys) in
      let numerator = f.minus sum_xy (f.over (f.times sum_x sum_y) n) in
      let spread_x = f.minus sum_x2 (f.over (f.times sum_x sum_x) n) in
      let spread_y = f.minus sum_y2 (f.over (f.times sum_y sum_y) n) in
      let denominator = f.sqrt (f.times spread_x spread_y) in
      if not (length xs == length ys) || length xs == 0
      then none
      else if f.eq denominator (f.lit 0 0)
      then none
      else some (f.over numerator denominator)

module _ {F : Type 0} where
  unfoldable pub set_correlation :
      ExposureValidator F → SymbolId → SymbolId → F → ExposureValidator F
  set_correlation v a b corr = record v {
    correlation_matrix = insert (pair_key a b) corr v.correlation_matrix;
  }

  unfoldable pub set_sector : ExposureValidator F → SymbolId → String → ExposureValidator F
  set_sector v symbol sector = record v { sector_map = insert symbol sector v.sector_map }

-- Condition A of `check_new_position`.
unfoldable pub sectors_differ : Option String → Option String → Bool
sectors_differ (some s) (some t) = not (s == t)
sectors_differ _ _ = false

module _ {F : Type 0} ⦃f : Float F⦄ where
  unfoldable pub update_correlation_from_returns :
      ExposureValidator F → SymbolId → List F → SymbolId → List F → ExposureValidator F
  unfolding calculate_pearson set_correlation
  update_correlation_from_returns v a returns_a b returns_b =
      elim (calculate_pearson returns_a returns_b) [
        | none ↦ v
        | some corr ↦ set_correlation v a b corr
      ]

  -- Condition B.
  unfoldable pub correlated : ExposureValidator F → SymbolId → SymbolId → Bool
  correlated v new_symbol existing_symbol =
      f.le (f.lit 5 1)
        (unwrap_or (lookup (pair_key new_symbol existing_symbol) v.correlation_matrix) (f.lit 1 0))

  unfoldable pub check_new_position :
      ExposureValidator F → SymbolId → List SymbolId → Result RejectReason (Unit {0})
  unfolding sectors_differ correlated
  check_new_position v new_symbol [] = ok tt
  check_new_position v new_symbol (existing ∷ []) =
      if not (sectors_differ (lookup new_symbol v.sector_map) (lookup existing v.sector_map))
      then err exposure
      else if correlated v new_symbol existing
      then err exposure
      else ok tt
  check_new_position v new_symbol (_ ∷ _ ∷ _) = err exposure

-- The order in which a pair is named does not matter.
pub pair_key_comm : (a b : SymbolId) → pair_key a b ≡ pair_key b a
pair_key_comm a b = ground arith

module _ {F : Type 0} ⦃f : Float F⦄ where
  -- What the validator knows lets a second position in beside a first: both sectors are known and
  -- differ, and a correlation is stored for the pair that is not at least 0.5.
  pub record LetsIn (v : ExposureValidator F) (new_symbol existing : SymbolId) : Type 0 where
    pub apart :
        (s : String) × (t : String) × (lookup new_symbol v.sector_map ≡ some s)
        × (lookup existing v.sector_map ≡ some t)
        × ((s == t) ≡ false)
    pub low :
        (corr : F) × (lookup (pair_key new_symbol existing) v.correlation_matrix ≡ some corr)
        × (f.le (f.lit 5 1) corr ≡ false)
