-- ===== src/Strategy/Pricing.antt =====
-- The free functions of src/strategy.cpp that price an order, and the exception that both
-- constructors throw.
use Prim.Native.String.{String}
use hl_maker_lighter_arb_cpp.Common.{◌||◌, if◌then◌else◌}
use hl_maker_lighter_arb_cpp.Double.{Double, lit, ◌+ᵈ◌, ◌-ᵈ◌, ◌*ᵈ◌, ◌/ᵈ◌, ◌≤ᵈ◌}
use hl_maker_lighter_arb_cpp.Types.{
  Direction, short_lighter_long_hl, long_lighter_short_hl, SpreadSnapshot, mid,
}

-- A constructor's result: the object, or `std::invalid_argument` with its text.
pub data Created (A : Type 0) : Type 0 where
  created : A → Created A
  invalid_argument : String → Created A

module _ {W : Type 0} ⦃d : Double W⦄ where
  -- `kTakerSlippageBps / 10000.0`
  abbrev pub taker_slippage : W
  taker_slippage = lit 10 0 /ᵈ lit 10000 0

  unfoldable pub aggressive_lighter_price : SpreadSnapshot W → Direction → W
  aggressive_lighter_price s dir = if mid s.lighter ≤ᵈ lit 0 0 then lit 0 0 else scaled dir
    where
      scaled : Direction → W
      scaled short_lighter_long_hl = mid s.lighter *ᵈ (lit 1 0 -ᵈ taker_slippage)
      scaled long_lighter_short_hl = mid s.lighter *ᵈ (lit 1 0 +ᵈ taker_slippage)

  unfoldable pub lighter_anchored_hl_price : SpreadSnapshot W → Direction → W → W
  lighter_anchored_hl_price s short_lighter_long_hl spread_bps =
      let spread_ratio = spread_bps /ᵈ lit 10000 0 in
      if s.lighter.bid ≤ᵈ lit 0 0 then lit 0 0 else s.lighter.bid /ᵈ (lit 1 0 +ᵈ spread_ratio)
  lighter_anchored_hl_price s long_lighter_short_hl spread_bps =
      let spread_ratio = spread_bps /ᵈ lit 10000 0 in
      if (s.lighter.ask ≤ᵈ lit 0 0) || (lit 1 0 ≤ᵈ spread_ratio)
      then lit 0 0
      else s.lighter.ask /ᵈ (lit 1 0 -ᵈ spread_ratio)

  unfoldable pub hl_anchored_lighter_price : SpreadSnapshot W → Direction → W → W
  hl_anchored_lighter_price s short_lighter_long_hl spread_bps =
      let spread_ratio = spread_bps /ᵈ lit 10000 0 in
      if s.hl.ask ≤ᵈ lit 0 0 then lit 0 0 else s.hl.ask *ᵈ (lit 1 0 +ᵈ spread_ratio)
  hl_anchored_lighter_price s long_lighter_short_hl spread_bps =
      let spread_ratio = spread_bps /ᵈ lit 10000 0 in
      if s.hl.bid ≤ᵈ lit 0 0 then lit 0 0 else s.hl.bid *ᵈ (lit 1 0 -ᵈ spread_ratio)

  unfoldable pub aggressive_hl_price : SpreadSnapshot W → Direction → W
  aggressive_hl_price s short_lighter_long_hl = s.hl.ask *ᵈ (lit 1 0 +ᵈ taker_slippage)
  aggressive_hl_price s long_lighter_short_hl = s.hl.bid *ᵈ (lit 1 0 -ᵈ taker_slippage)
