-- ===== src/Double/Defs.antt =====
-- The operations on `double` that the sources use, and the functions of `<cmath>` and
-- `<algorithm>` that the standard defines by them.
use hl_maker_lighter_arb_cpp.Common.{ℕ, Bool, if◌then◌else◌}

-- `lit n k` is the decimal literal n / 10^k: `lit 5 1` is 0.5.
pub record Double (W : Type 0) : Type 0 where
  pub lit : ℕ → ℕ → W
  pub add : W → W → W
  pub sub : W → W → W
  pub mul : W → W → W
  pub div : W → W → W
  pub neg : W → W
  pub fabs : W → W
  pub lt : W → W → Bool
  pub le : W → W → Bool

infixl 65 ◌+ᵈ◌ ◌-ᵈ◌
infixl 70 ◌*ᵈ◌ ◌/ᵈ◌
infix 50 ◌<ᵈ◌ ◌≤ᵈ◌
module _ {W : Type 0} ⦃d : Double W⦄ where
  abbrev pub lit : ℕ → ℕ → W
  lit = d.lit

  abbrev pub ◌+ᵈ◌ : W → W → W
  ◌+ᵈ◌ = d.add

  abbrev pub ◌-ᵈ◌ : W → W → W
  ◌-ᵈ◌ = d.sub

  abbrev pub ◌*ᵈ◌ : W → W → W
  ◌*ᵈ◌ = d.mul

  abbrev pub ◌/ᵈ◌ : W → W → W
  ◌/ᵈ◌ = d.div

  -- The tests `a < b` and `a <= b`; `a > b` is `b < a`, and `a >= b` is `b <= a`.
  abbrev pub ◌<ᵈ◌ : W → W → Bool
  ◌<ᵈ◌ = d.lt

  abbrev pub ◌≤ᵈ◌ : W → W → Bool
  ◌≤ᵈ◌ = d.le

  -- `std::min(a, b)` is `b < a ? b : a`, and `std::max(a, b)` is `a < b ? b : a`.
  abbrev pub fmin : W → W → W
  fmin a b = if d.lt b a then b else a

  abbrev pub fmax : W → W → W
  fmax a b = if d.lt a b then b else a
