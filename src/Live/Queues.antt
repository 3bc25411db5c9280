-- ===== src/Live/Queues.antt =====
-- The queues between the feeds' threads and the loop, and a whole pass of the loop under the policy
-- HlMakerLtTaker.
use Prim.Native.String.{String}
use text.Mathlib.Text.{◌==◌ as str_eq}
use hl_maker_lighter_arb_cpp.Common.{List, [], ◌∷◌, ◌++◌, if◌then◌else◌}
use hl_maker_lighter_arb_cpp.Double.{Double}
use hl_maker_lighter_arb_cpp.Types.{SpreadSnapshot, TradeEvent}
use hl_maker_lighter_arb_cpp.Exchange.{Answers}
use hl_maker_lighter_arb_cpp.Engine.Outcome.{Outcome, quiet, and_then}
use hl_maker_lighter_arb_cpp.Engine.HlMaker.State.{MakerHedgeEngine}
use hl_maker_lighter_arb_cpp.Engine.HlMaker.Fill.{HlFill, on_hl_fill}
use hl_maker_lighter_arb_cpp.Engine.HlMaker.TradeEvent.{on_trade_event}
use hl_maker_lighter_arb_cpp.Live.Defs.{Live, Tick, tick}

pub record Queues (W : Type 0) : Type 0 where
  pub fills : List (HlFill W)
  pub trades : List (TradeEvent W)

-- A fill or trade as it is taken out: with the snapshot and the answers that the engine then finds.
pub record QueuedFill (W : Type 0) : Type 0 where
  pub fill : HlFill W
  pub snapshot : SpreadSnapshot W
  pub env : Answers W

pub record QueuedTrade (W : Type 0) : Type 0 where
  pub trade : TradeEvent W
  pub env : Answers W

module _ {W : Type 0} where
  -- The callbacks of the feeds, which let other coins pass.
  unfoldable pub enqueue_fill : Queues W → String → HlFill W → Queues W
  enqueue_fill q coin fill =
      if str_eq coin "HYPE" then record q { fills = q.fills ++ (fill ∷ []) } else q

  unfoldable pub enqueue_trade : Queues W → TradeEvent W → Queues W
  enqueue_trade q trade =
      if str_eq trade.coin "HYPE" then record q { trades = q.trades ++ (trade ∷ []) } else q

  -- A handler of the engine as a step of the loop.
  abbrev pub lifted : Live W → Outcome W (MakerHedgeEngine W) → Outcome W (Live W)
  lifted l o = record {
    engine = record l { engine = o.engine };
    sent = o.sent;
    logs = o.logs;
    journal = o.journal;
  }

module _ {W : Type 0} ⦃d : Double W⦄ where
  unfoldable pub drain_fills : List (QueuedFill W) → Live W → Outcome W (Live W)
  drain_fills [] l = quiet l
  drain_fills (q ∷ qs) l =
      and_then (lifted l (on_hl_fill q.env l.engine q.fill q.snapshot)) (drain_fills qs)

  unfoldable pub drain_trades : List (QueuedTrade W) → Live W → Outcome W (Live W)
  drain_trades [] l = quiet l
  drain_trades (q ∷ qs) l =
      and_then (lifted l (on_trade_event q.env l.engine q.trade)) (drain_trades qs)

  -- One pass: fills, then trades, then the tick.
  unfoldable pub pass :
      Live W → List (QueuedFill W) → List (QueuedTrade W) → Tick W → Outcome W (Live W)
  pass l fills trades t =
      and_then (and_then (drain_fills fills l) (drain_trades trades)) (λ next. tick next t)
