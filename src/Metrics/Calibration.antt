-- ===== src/Metrics/Calibration.antt =====
-- `CalibrationLogger` and `WeeklyReviewReport` of rust/crates/metrics_observability/src/lib.rs.
use ibkr_bot.Base.{
  ℕ, Bool, false, Option, some, none, List, [], ◌∷◌, ◌++◌, String, if◌then◌else◌, ltb, length,
}
use ibkr_bot.Base.Float.{Float}

pub data CalibrationField (F : Type 0) : Type 0 where
  real : F → CalibrationField F
  unavailable : String → CalibrationField F

pub record SlippageRecord (F : Type 0) : Type 0 where
  pub symbol_id : ℕ
  pub ts : ℕ
  pub shares : ℕ
  pub entry_price : F
  pub predicted_slippage : CalibrationField F
  pub actual_slippage : F
  pub ratio : Option F

pub record CalibrationLogger (F : Type 0) : Type 0 where
  pub records : List (SlippageRecord F)
  pub min_trades_for_eval : ℕ

abbrev pub new_calibration_logger : {F : Type 0} → ℕ → CalibrationLogger F
new_calibration_logger min_trades = record { records = []; min_trades_for_eval = min_trades }

-- The ratios of the records that have one.
unfoldable pub ratios : {F : Type 0} → List (SlippageRecord F) → List F
ratios [] = []
ratios (r ∷ rs) = let rest = ratios rs in elim r.ratio [ some x ↦ x ∷ rest | none ↦ rest ]

module _ {F : Type 0} ⦃f : Float F⦄ where
  abbrev pub ratio_of : CalibrationField F → F → Option F
  ratio_of (real p) actual = some (f.over actual p)
  ratio_of (unavailable reason) actual = none

  unfoldable pub record_slippage :
      CalibrationLogger F → ℕ → ℕ → ℕ → F → CalibrationField F → F → CalibrationLogger F
  record_slippage l symbol_id ts shares entry_price predicted actual =
      let row : SlippageRecord F = record {
        symbol_id = symbol_id;
        ts = ts;
        shares = shares;
        entry_price = entry_price;
        predicted_slippage = predicted;
        actual_slippage = actual;
        ratio = ratio_of predicted actual;
      } in
      record l { records = l.records ++ (row ∷ []) }

  abbrev pub sum_of : F → List F → F
  sum_of total [] = total
  sum_of total (x ∷ xs) = sum_of (f.plus total x) xs

  unfoldable pub evaluate_ratio : CalibrationLogger F → Option F
  unfolding ratios
  evaluate_ratio l =
      let valid = ratios l.records in
      if ltb (length valid) l.min_trades_for_eval
      then none
      else some (f.over (sum_of (f.lit 0 0) valid) (f.of_nat (length valid)))

  unfoldable pub needs_recalibration : CalibrationLogger F → Bool
  unfolding evaluate_ratio
  needs_recalibration l = elim (evaluate_ratio l) [ some r ↦ f.lt (f.lit 15 1) r | none ↦ false ]
