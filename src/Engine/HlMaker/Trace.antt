-- ===== src/Engine/HlMaker/Trace.antt =====
-- How main_live.cpp drives MakerHedgeEngine: any sequence of market ticks, fills, trades and reports, with
-- any answers of the venues to each.
use hl_maker_lighter_arb_cpp.Common.{List, [], ◌∷◌, ◌++◌}
use hl_maker_lighter_arb_cpp.Common.Int.{ℤ}
use hl_maker_lighter_arb_cpp.Double.{Double}
use hl_maker_lighter_arb_cpp.Types.{SpreadSnapshot, TradeEvent}
use hl_maker_lighter_arb_cpp.Exchange.{Answers, Sent}
use hl_maker_lighter_arb_cpp.Engine.Outcome.{Outcome, quiet}
use hl_maker_lighter_arb_cpp.Engine.HlMaker.State.{MakerHedgeEngine, set_hl_position}
use hl_maker_lighter_arb_cpp.Engine.HlMaker.Fill.{HlFill, on_hl_fill}
use hl_maker_lighter_arb_cpp.Engine.HlMaker.MarketData.{
  on_market_data, engine_on_lighter_hedge_reject, engine_on_lighter_hedge_fill,
}
use hl_maker_lighter_arb_cpp.Engine.HlMaker.TradeEvent.{on_trade_event}

pub data Event (W : Type 0) : Type 0 where
  market_data : Answers W → Answers W → ℤ → Event W
  hl_fill : Answers W → HlFill W → SpreadSnapshot W → Event W
  trade_event : Answers W → TradeEvent W → Event W
  lighter_reject : Answers W → Event W
  lighter_fill : W → Event W
  sync_position : W → Event W

module _ {W : Type 0} ⦃d : Double W⦄ where
  unfoldable pub handle : MakerHedgeEngine W → Event W → Outcome W (MakerHedgeEngine W)
  handle e (market_data env later now_ms) = on_market_data env later e now_ms
  handle e (hl_fill env fill snapshot) = on_hl_fill env e fill snapshot
  handle e (trade_event env trade) = on_trade_event env e trade
  handle e (lighter_reject env) = engine_on_lighter_hedge_reject env e
  handle e (lighter_fill px) = quiet (engine_on_lighter_hedge_fill e px)
  handle e (sync_position base) = quiet (set_hl_position e base)

  -- The engine after the events, and all that they sent.
  unfoldable pub handle_all : MakerHedgeEngine W → List (Event W) → MakerHedgeEngine W
  handle_all e [] = e
  handle_all e (v ∷ vs) = handle_all (handle e v).engine vs

  unfoldable pub all_sent : MakerHedgeEngine W → List (Event W) → List (Sent W)
  all_sent e [] = []
  all_sent e (v ∷ vs) = (handle e v).sent ++ all_sent (handle e v).engine vs
