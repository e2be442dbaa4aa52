-- ===== src/Risk/SizingTests.antt =====
-- Position sizing at a concrete input, with whole numbers for `f64`:
-- rust/crates/risk_engine/src/sizing.rs.
use ibkr_bot.Base.{
  ℕ, nat_eq, false, true, ◌+◌, ◌-◌, ◌*◌, ◌/◌, ◌^◌, min, ◌≡◌, ◌≤◌, refl, arith, leb, ltb, ◌==◌,
  if◌then◌else◌,
}
use ibkr_bot.Base.Float.{Float}
use ibkr_bot.Risk.Sizing.{SizingConfig, calculate_size, risk_shares, budget_shares}
use ibkr_bot.Risk.Shares.{calculate_size-le}

-- Whole numbers as amounts of money.
unfoldable whole : Float ℕ
whole = record {
  lit = λ m k. m / 10 ^ k;
  of_nat = λ n. n;
  plus = λ x y. x + y;
  minus = λ x y. x - y;
  times = λ x y. x * y;
  over = λ x y. x / y;
  negate = λ x. 0;
  absolute = λ x. x;
  sqrt = λ x. x;
  floor = λ x. x;
  lesser = λ x y. if leb x y then x else y;
  greater = λ x y. if leb x y then y else x;
  lt = ltb;
  le = leb;
  eq = λ x y. x == y;
  is_nan = λ _. false;
  is_infinite = λ _. false;
  as_u32 = λ x. min x (2 ^ 32 - 1);
  max_value = 2 ^ 200;
}

lesser-is_nan :
    (x y : ℕ)
    → whole.is_nan x ≡ false
    → whole.is_nan y ≡ false
    → whole.is_nan (whole.lesser x y) ≡ false
unfolding whole
lesser-is_nan x y _ _ = refl

lesser-left :
    (x y : ℕ)
    → whole.is_nan x ≡ false
    → whole.is_nan y ≡ false
    → whole.le (whole.lesser x y) x ≡ true
unfolding whole
lesser-left x y _ _ = ground arith

lesser-right :
    (x y : ℕ)
    → whole.is_nan x ≡ false
    → whole.is_nan y ≡ false
    → whole.le (whole.lesser x y) y ≡ true
unfolding whole
lesser-right x y _ _ = ground arith

floor_mono :
    (x y : ℕ) → whole.le x y ≡ true → whole.as_u32 (whole.floor x) ≤ whole.as_u32 (whole.floor y)
unfolding whole
floor_mono x y h = ground arith

no_nan : (x : ℕ) → whole.is_nan x ≡ false
unfolding whole
no_nan x = refl

abbrev sizing : SizingConfig ℕ
sizing = record {
  risk_per_trade_usd = 50;
  min_stop_distance_cents = 1;
  max_position_pct_nav = 1;
  liquidity_cap_pct = 1;
  budget_cap_usd = 5000;
}

calculate_size-le_example :
    let size = calculate_size ⦃f = whole⦄ sizing 10000 10 8 100000 20000 in
    (size ≤ whole.as_u32 (whole.floor (risk_shares ⦃f = whole⦄ sizing 10 8)))
    × (size ≤ whole.as_u32 (whole.floor (whole.over 5000 10)))
    × (size ≤ whole.as_u32 (whole.floor (whole.over (whole.times 10000 1) 10)))
    × (size ≤ whole.as_u32 (whole.floor (whole.over 20000 10)))
    × (size ≤ whole.as_u32 (whole.floor (whole.times (whole.of_nat 100000) 1)))
calculate_size-le_example =
    calculate_size-le ⦃f = whole⦄ sizing 10000 10 8 100000 20000 lesser-is_nan lesser-left
      lesser-right floor_mono (no_nan _) (no_nan _) (no_nan _) (no_nan _) (no_nan _)

test_size : calculate_size ⦃f = whole⦄ sizing 10000 10 8 100000 20000 ≡ 25
unfolding calculate_size risk_shares budget_shares whole
test_size = refl
