-- ===== src/Strategy/LighterMaker/Trace.antt =====
-- How a caller drives LighterMakerHlHedger: any sequence of calls of its methods.
use hl_maker_lighter_arb_cpp.Common.{List, [], ◌∷◌}
use hl_maker_lighter_arb_cpp.Common.Int.{ℤ}
use hl_maker_lighter_arb_cpp.Double.{Double}
use hl_maker_lighter_arb_cpp.Types.{SpreadSnapshot, Action, no_op}
use hl_maker_lighter_arb_cpp.Strategy.LighterMaker.Defs.{
  LighterMakerHlHedger, on_market_snapshot, on_lighter_maker_fill, on_hl_hedge_fill,
  on_hl_hedge_reject, reset,
}

pub data Call (W : Type 0) : Type 0 where
  market_snapshot : SpreadSnapshot W → ℤ → Call W
  lighter_maker_fill : W → W → SpreadSnapshot W → Call W
  hl_hedge_fill : W → Call W
  hl_hedge_reject : Call W
  reset_call : Call W

module _ {W : Type 0} ⦃d : Double W⦄ where
  unfoldable pub step : LighterMakerHlHedger W → Call W → LighterMakerHlHedger W × Action W
  step h (market_snapshot s now_ms) = on_market_snapshot h s now_ms
  step h (lighter_maker_fill px size s) = on_lighter_maker_fill h px size s
  step h (hl_hedge_fill px) = (on_hl_hedge_fill h px, no_op)
  step h hl_hedge_reject = on_hl_hedge_reject h
  step h reset_call = (reset h, no_op)

  -- The object after the calls.
  unfoldable pub run : LighterMakerHlHedger W → List (Call W) → LighterMakerHlHedger W
  run h [] = h
  run h (c ∷ cs) = run (step h c).0 cs
