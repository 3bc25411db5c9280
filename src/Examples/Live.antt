-- ===== src/Examples/Live.antt =====
-- The event loop at concrete inputs.
use Prim.Native.String.{String}
use hl_maker_lighter_arb_cpp.Common.{◌≡◌, refl, Bool, true, false, none, List, [], ◌∷◌, ◌+◌, ℕ}
use hl_maker_lighter_arb_cpp.Common.Int.{pos}
use hl_maker_lighter_arb_cpp.Engine.HlMaker.Rate.{placements}
use hl_maker_lighter_arb_cpp.Double.Fixed.{Fixed, fixed_double}
use hl_maker_lighter_arb_cpp.Types.{SpreadSnapshot, valid, mid}
use hl_maker_lighter_arb_cpp.Engine.HlMaker.MarketData.{on_market_data}
use hl_maker_lighter_arb_cpp.Live.Defs.{
  Live, Tick, tick, is_stale, on_disconnect, check_feed, is_feed_reason, has_text,
}
use hl_maker_lighter_arb_cpp.Convert.Fixed.{fixed_conversions}
use hl_maker_lighter_arb_cpp.Exchange.{hl_cancel, lighter_ioc}
use hl_maker_lighter_arb_cpp.Engine.Outcome.{collect_snapshot}
use hl_maker_lighter_arb_cpp.Engine.HlMaker.TradeEvent.{
  speculative_request, is_stale_trade, crosses_price, is_too_small,
}
use hl_maker_lighter_arb_cpp.Live.Queues.{QueuedTrade, pass}
use hl_maker_lighter_arb_cpp.Live.Position.{read_hl_position, query_hl_position}
use hl_maker_lighter_arb_cpp.Live.Outage.{
  IsCrossed, cancelled_order_hedged_ahead, failed_query_forgets_position,
}
use hl_maker_lighter_arb_cpp.Live.Passes.{
  PassInput, passes, passes_sent, drains, drains_sent, outage_passes,
}
use hl_maker_lighter_arb_cpp.Live.KillSwitch.{stale_hides_outage}
use hl_maker_lighter_arb_cpp.Examples.Data.{nought, wide, quote, amount}
use hl_maker_lighter_arb_cpp.Examples.HlMaker.{order}
use hl_maker_lighter_arb_cpp.Examples.Risk.{guard}
use hl_maker_lighter_arb_cpp.Examples.Venues.{live, trade, wide_at}

abbrev pub running : Live Fixed
running = record { risk = guard; engine = live; dry_run = false }

abbrev stopped : String → Live Fixed
stopped why = record running {
  risk = record guard { kill_switch = true; kill_switch_reason = why };
}

abbrev pub tick_at : ℕ → SpreadSnapshot Fixed → Bool → Tick Fixed
tick_at now snap subscribed = record {
  snap = snap;
  fills_subscribed = subscribed;
  actual_position = nought;
  now_ms = pos now;
  env = wide_at now;
  later = wide_at (now + 1);
}

abbrev pub old : SpreadSnapshot Fixed
old = record wide { hl = record (quote 9995 9997) { quote_age_ms = pos 6000 } }

stale_hides_outage_example :
    let o = tick (stopped "stale quotes detected") (tick_at 9000 wide false) in
    let run = on_market_data (wide_at 9000) (wide_at 9001) live (pos 9000) in
    (o.engine.risk.kill_switch ≡ false) × (o.engine.engine ≡ run.engine) × (o.sent ≡ run.sent)
unfolding is_stale
stale_hides_outage_example =
    stale_hides_outage (stopped "stale quotes detected") (tick_at 9000 wide false) refl refl refl
      refl refl

-- The fill feed is lost with the order at rest; a trade through its price is queued.
abbrev queued : QueuedTrade Fixed
queued = record { trade = trade; env = wide_at 3600 }

abbrev down : Live Fixed
down = stopped "fill feed disconnected: closed"

trade_crosses : IsCrossed (wide_at 3600) live trade order
unfolding is_stale_trade crosses_price is_too_small valid mid collect_snapshot
trade_crosses = record { fresh = refl; recent = refl; crosses = refl; large = refl; good = refl }

cancelled_order_hedged_ahead_example :
    let lost = on_disconnect running "closed" in
    (lost.sent ≡ hl_cancel "HYPE" "7" false ∷ [])
    × ((pass lost.engine [] (queued ∷ []) (tick_at 9000 wide false)).sent
        ≡ lighter_ioc (speculative_request live (collect_snapshot live.config (wide_at 3600)) order)
          ∷ [])
cancelled_order_hedged_ahead_example =
    cancelled_order_hedged_ahead running "closed" queued (tick_at 9000 wide false) refl refl refl
      trade_crosses refl

-- The venue does not answer the query of the position after the fill feed is back.
abbrev holding : Live Fixed
holding = record down { engine = record live { hl_position_base = amount 25 2 } }

failed_query_forgets_position_example :
    let o = check_feed holding (tick_at 9000 wide true) in
    (o.engine.engine.hl_position_base ≡ nought)
    × (o.engine.risk.kill_switch ≡ false)
    × (o.sent ≡ [])
unfolding query_hl_position read_hl_position is_feed_reason has_text
failed_query_forgets_position_example =
    failed_query_forgets_position holding (tick_at 9000 wide true) none refl refl refl refl refl
      refl

-- Two passes of the outage: a trade through the price of the order, then nothing.
abbrev two_passes : List (PassInput Fixed)
two_passes =
    record { fills = []; trades = queued ∷ []; finds = tick_at 9000 wide false }
    ∷ record { fills = []; trades = []; finds = tick_at 9100 old false }
    ∷ []

outage_passes_example :
    (passes down two_passes ≡ drains down two_passes)
    × (passes_sent down two_passes ≡ drains_sent down two_passes)
    × (placements (passes_sent down two_passes) ≡ 0)
    × ((passes down two_passes).risk ≡ down.risk)
outage_passes_example = outage_passes down two_passes (refl, refl) (refl, (refl, tt))
