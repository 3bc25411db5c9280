-- ===== src/Double/Order.antt =====
-- What IEEE 754 says of the comparisons, NaN included. A theorem that needs one of these facts
-- takes the record as a hypothesis.
use hl_maker_lighter_arb_cpp.Common.{◌≡◌, true, false}
use hl_maker_lighter_arb_cpp.Double.Defs.{Double, lit, ◌-ᵈ◌, ◌<ᵈ◌, ◌≤ᵈ◌}

pub record IsOrdered (W : Type 0) ⦃d : Double W⦄ : Type 0 where
  pub lt_irrefl : (x : W) → x <ᵈ x ≡ false
  pub lt_asymm : (x y : W) → x <ᵈ y ≡ true → y <ᵈ x ≡ false
  -- NaN is the value that is not `<=` itself, and it is less than nothing.
  pub le_self_of_lt : (x y : W) → x <ᵈ y ≡ true → y ≤ᵈ y ≡ true
  pub le_of_lt : (x y : W) → x <ᵈ y ≡ true → x ≤ᵈ y ≡ true
  pub not_lt_of_le : (x y : W) → x ≤ᵈ y ≡ true → y <ᵈ x ≡ false
  pub le_trans : (x y z : W) → x ≤ᵈ y ≡ true → y ≤ᵈ z ≡ true → x ≤ᵈ z ≡ true
  pub not-fabs-lt-zero : (x : W) → d.fabs x <ᵈ lit 0 0 ≡ false
  -- Taking away a number that is not negative does not make a number greater, unless the result
  -- is NaN.
  pub sub_le : (x y : W) → y <ᵈ lit 0 0 ≡ false → (x -ᵈ y) ≤ᵈ (x -ᵈ y) ≡ true → (x -ᵈ y) ≤ᵈ x ≡ true
