-- ===== src/Risk/Shares.antt =====
-- No bound on a position is passed: rust/crates/risk_engine/src/sizing.rs.
use ibkr_bot.Base.{ℕ, true, false, ◌||◌, ◌≤◌, ◌≡◌, arith, inl, inr, Bool-cases}
use ibkr_bot.Base.Float.{Float}
use ibkr_bot.Risk.Sizing.{SizingConfig, risk_shares, budget_shares, calculate_size}

module _ {F : Type 0} ⦃f : Float F⦄ where
  -- Where `min` of numbers is at most each, and rounding down to shares keeps the order, a size is at
  -- most what the risk, the budget, the account, the cash and the liquidity bound it to, each as a
  -- whole number of shares, as long as no bound is a NaN.
  pub calculate_size-le :
      (c : SizingConfig F) (balance entry stop : F) (volume : ℕ) (cash : F)
      → ((x y : F) → f.is_nan x ≡ false → f.is_nan y ≡ false → f.is_nan (f.lesser x y) ≡ false)
      → ((x y : F) → f.is_nan x ≡ false → f.is_nan y ≡ false → f.le (f.lesser x y) x ≡ true)
      → ((x y : F) → f.is_nan x ≡ false → f.is_nan y ≡ false → f.le (f.lesser x y) y ≡ true)
      → ((x y : F) → f.le x y ≡ true → f.as_u32 (f.floor x) ≤ f.as_u32 (f.floor y))
      → f.is_nan (risk_shares c entry stop) ≡ false
      → f.is_nan (f.over c.budget_cap_usd entry) ≡ false
      → f.is_nan (f.over (f.times balance c.max_position_pct_nav) entry) ≡ false
      → f.is_nan (f.over cash entry) ≡ false
      → f.is_nan (f.times (f.of_nat volume) c.liquidity_cap_pct) ≡ false
      → let size = calculate_size c balance entry stop volume cash in
        (size ≤ f.as_u32 (f.floor (risk_shares c entry stop)))
        × (size ≤ f.as_u32 (f.floor (f.over c.budget_cap_usd entry)))
        × (size ≤ f.as_u32 (f.floor (f.over (f.times balance c.max_position_pct_nav) entry)))
        × (size ≤ f.as_u32 (f.floor (f.over cash entry)))
        × (size ≤ f.as_u32 (f.floor (f.times (f.of_nat volume) c.liquidity_cap_pct)))
  unfolding calculate_size budget_shares
  calculate_size-le c balance entry stop volume cash nan left right mono r b n k l =
      let risk = risk_shares c entry stop in
      let budget = f.over c.budget_cap_usd entry in
      let nav = f.over (f.times balance c.max_position_pct_nav) entry in
      let money = f.over cash entry in
      let liquid = f.times (f.of_nat volume) c.liquidity_cap_pct in
      let two = f.lesser budget nav in
      let three = f.lesser two money in
      let four = f.lesser risk three in
      let two_nan = nan budget nav b n in
      let three_nan = nan two money two_nan k in
      let four_nan = nan risk three r three_nan in
      let to_four = mono (f.lesser four liquid) four (left four liquid four_nan l) in
      let to_three = mono four three (right risk three r three_nan) in
      let to_two = mono three two (left two money two_nan k) in
      elim (Bool-cases (f.le entry (f.lit 0 0) || f.le stop (f.lit 0 0) || f.le entry stop)) [
        | inl t ↦ rw t (omega arith, omega arith, omega arith, omega arith, omega arith)
        | inr t ↦ rw t (
          omega (arith, to_four, mono four risk (left risk three r three_nan)),
          omega (arith, to_four, to_three, to_two, mono two budget (left budget nav b n)),
          omega (arith, to_four, to_three, to_two, mono two nav (right budget nav b n)),
          omega (arith, to_four, to_three, mono three money (right two money two_nan k)),
          mono (f.lesser four liquid) liquid (right four liquid four_nan l),
        )
      ]
