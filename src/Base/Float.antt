-- ===== src/Base/Float.antt =====
-- `f64` as an interface: the operations and comparisons that the code makes. Nothing is assumed of
-- them here; a theorem that needs a law of IEEE 754 names it as a hypothesis.
use Prim.Native.Nat.{ℕ, ◌-◌, ◌*◌, ◌/◌, ◌^◌, min}
use mathlib.Core.Bool.{Bool, true, false}
use ibkr_bot.Base.Tests.{if◌then◌else◌}
use ibkr_bot.Base.Int.{
  ℤ, pos, ◌+ℤ◌, ◌-ℤ◌, ◌*ℤ◌, neg, abs, ltb_ℤ, leb_ℤ, is_negative, pos_part, neg_part, sub_ℕ, is_zero,
}

pub record Float (F : Type 0) : Type 0 where
  -- The literal m · 10⁻ᵏ.
  pub lit : ℕ → ℕ → F
  -- `n as f64`.
  pub of_nat : ℕ → F
  pub plus : F → F → F
  pub minus : F → F → F
  pub times : F → F → F
  pub over : F → F → F
  pub negate : F → F
  pub absolute : F → F
  pub sqrt : F → F
  pub floor : F → F
  pub lesser : F → F → F
  pub greater : F → F → F
  pub lt : F → F → Bool
  pub le : F → F → Bool
  pub eq : F → F → Bool
  pub is_nan : F → Bool
  pub is_infinite : F → Bool
  -- `x as u32`, which saturates.
  pub as_u32 : F → ℕ
  -- `f64::MAX`.
  pub max_value : F

-- Decimals with eight places, and NaN: a small concrete instance, for runs of the model.
pub data Decimal : Type 0 where
  nan : Decimal
  num : ℤ → Decimal

abbrev scale : ℕ
scale = 100_000_000

abbrev map_num : (ℤ → ℤ → Decimal) → Decimal → Decimal → Decimal
map_num f (num a) (num b) = f a b
map_num f _ _ = nan

abbrev test_num : (ℤ → ℤ → Bool) → Decimal → Decimal → Bool
test_num f (num a) (num b) = f a b
test_num f _ _ = false

-- Towards zero.
abbrev div_ℤ : ℤ → ℕ → ℤ
div_ℤ a n = sub_ℕ (pos_part a / n) (neg_part a / n)

abbrev quotient : ℤ → ℤ → Decimal
quotient a b =
    if is_zero b
    then nan
    else num (
        if is_negative b
        then neg (div_ℤ (a *ℤ pos scale) (abs b))
        else div_ℤ (a *ℤ pos scale) (abs b))

abbrev on_num : (ℤ → ℤ) → Decimal → Decimal
on_num f nan = nan
on_num f (num a) = num (f a)

-- `min` and `max` pass over a NaN.
abbrev choose : (ℤ → ℤ → Bool) → Decimal → Decimal → Decimal
choose f nan y = y
choose f x nan = x
choose f (num a) (num b) = if f a b then num a else num b

abbrev saturate : Decimal → ℕ
saturate nan = 0
saturate (num a) = min (pos_part a / scale) (2 ^ 32 - 1)

abbrev nan_test : Decimal → Bool
nan_test nan = true
nan_test (num a) = false

instance unfoldable pub decimal_float : Float Decimal
unfolding ◌+ℤ◌ ◌-ℤ◌ ◌*ℤ◌
decimal_float = record {
  lit = λ m k. num (pos (m * scale / 10 ^ k));
  of_nat = λ n. num (pos (n * scale));
  plus = map_num (λ a b. num (a +ℤ b));
  minus = map_num (λ a b. num (a -ℤ b));
  times = map_num (λ a b. num (div_ℤ (a *ℤ b) scale));
  over = map_num quotient;
  negate = on_num neg;
  absolute = on_num (λ a. pos (abs a));
  sqrt = on_num (λ a. a);
  floor = on_num (λ a. div_ℤ a scale *ℤ pos scale);
  lesser = choose leb_ℤ;
  greater = choose (λ a b. leb_ℤ b a);
  lt = test_num ltb_ℤ;
  le = test_num leb_ℤ;
  eq = test_num (λ a b. is_zero (a -ℤ b));
  is_nan = nan_test;
  is_infinite = λ _. false;
  as_u32 = saturate;
  max_value = num (pos (2 ^ 200));
}
