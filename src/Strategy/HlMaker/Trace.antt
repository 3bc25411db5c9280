-- ===== src/Strategy/HlMaker/Trace.antt =====
-- How a caller drives HlMakerLighterHedger: any sequence of calls of its methods.
use hl_maker_lighter_arb_cpp.Common.{List, [], ◌∷◌}
use hl_maker_lighter_arb_cpp.Common.Int.{ℤ}
use hl_maker_lighter_arb_cpp.Double.{Double}
use hl_maker_lighter_arb_cpp.Types.{SpreadSnapshot, Action, no_op}
use hl_maker_lighter_arb_cpp.Strategy.HlMaker.Defs.{
  HlMakerLighterHedger, on_market_snapshot, on_hl_maker_fill, on_lighter_hedge_fill,
  on_lighter_hedge_reject, reset,
}

pub data Call (W : Type 0) : Type 0 where
  market_snapshot : SpreadSnapshot W → ℤ → W → Call W
  hl_maker_fill : W → W → SpreadSnapshot W → Call W
  lighter_hedge_fill : W → Call W
  lighter_hedge_reject : Call W
  reset_call : Call W

module _ {W : Type 0} ⦃d : Double W⦄ where
  unfoldable pub step : HlMakerLighterHedger W → Call W → HlMakerLighterHedger W × Action W
  step h (market_snapshot s now_ms hl_position_base) =
      on_market_snapshot h s now_ms hl_position_base
  step h (hl_maker_fill px size s) = on_hl_maker_fill h px size s
  step h (lighter_hedge_fill px) = (on_lighter_hedge_fill h px, no_op)
  step h lighter_hedge_reject = on_lighter_hedge_reject h
  step h reset_call = (reset h, no_op)

  -- The object after the calls.
  unfoldable pub run : HlMakerLighterHedger W → List (Call W) → HlMakerLighterHedger W
  run h [] = h
  run h (c ∷ cs) = run (step h c).0 cs
