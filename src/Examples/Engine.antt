-- ===== src/Examples/Engine.antt =====
-- MakerHedgeEngine at concrete inputs: one order, and the theorems along its life.
use hl_maker_lighter_arb_cpp.Common.{
  ℕ, if◌then◌else◌, ◌&&◌, ◌*◌, ◌≡◌, refl, inr, false, none, List, [], ◌∷◌, All,
}
use hl_maker_lighter_arb_cpp.Common.Int.{pos, ◌+ℤ◌, ◌-ℤ◌, ◌≤ℤ◌}
use hl_maker_lighter_arb_cpp.Double.{◌+ᵈ◌}
use hl_maker_lighter_arb_cpp.Double.Fixed.{Fixed, fixed_double}
use hl_maker_lighter_arb_cpp.Types.{no_op, idle, mid, valid}
use hl_maker_lighter_arb_cpp.Strategy.Pricing.{created}
use hl_maker_lighter_arb_cpp.Strategy.HlMaker.Defs.{
  construct, has_reverted, on_market_snapshot, effective_spread_bps,
}
use hl_maker_lighter_arb_cpp.Exchange.{lighter_ioc}
use hl_maker_lighter_arb_cpp.Engine.Outcome.{collect_snapshot, unless_logged}
use hl_maker_lighter_arb_cpp.Engine.HlMaker.State.{
  construct_engine, contains, hl_cancel_retry_at_ms,
}
use hl_maker_lighter_arb_cpp.Engine.HlMaker.Fill.{hedge_fill_request, on_hl_fill}
use hl_maker_lighter_arb_cpp.Engine.HlMaker.MarketData.{on_market_data, is_blocked}
use hl_maker_lighter_arb_cpp.Engine.HlMaker.TradeEvent.{
  on_trade_event, speculative_request, is_stale_trade, crosses_price, is_too_small,
}
use hl_maker_lighter_arb_cpp.Engine.HlMaker.Trace.{
  Event, market_data, trade_event, handle, handle_all, all_sent,
}
use hl_maker_lighter_arb_cpp.Engine.HlMaker.Invariant.{EngineInv, engine_run-Inv}
use hl_maker_lighter_arb_cpp.Engine.HlMaker.Execute.{execute_cancel, execute_action}
use hl_maker_lighter_arb_cpp.Engine.HlMaker.Coverage.{bought, Covers, fill_covered}
use hl_maker_lighter_arb_cpp.Engine.HlMaker.Late.{late_fill_covered}
use hl_maker_lighter_arb_cpp.Engine.HlMaker.Limits.{WithinLimit, on_market_data-WithinLimit}
use hl_maker_lighter_arb_cpp.Engine.HlMaker.Rate.{placements, placement_rate}
use hl_maker_lighter_arb_cpp.Engine.HlMaker.Speculative.{IsHedgedAhead, trade_then_fill}
use hl_maker_lighter_arb_cpp.Engine.HlMaker.Stuck.{IsStuck, silent_forever, cancel_without_order}
use hl_maker_lighter_arb_cpp.Examples.Data.{wide, narrow, nought, amount}
use hl_maker_lighter_arb_cpp.Examples.HlMaker.{order, resting-Inv}
use hl_maker_lighter_arb_cpp.Examples.Venues.{
  engine_config, wide_at, narrow_at, new_engine, live, hedged_ahead, waiting, stuck, trade, fill_of,
  day,
}

constructed_engine : construct_engine engine_config ≡ created new_engine
unfolding construct_engine construct
constructed_engine = refl

engine_run-Inv_example : EngineInv (handle_all new_engine day)
engine_run-Inv_example = engine_run-Inv engine_config day constructed_engine

fill_covered_example :
    let env = narrow_at 3700 in
    let fill = fill_of 249975 in
    let o = on_hl_fill env live fill narrow in
    let ack = env.lighter_place_ioc_order (hedge_fill_request live fill narrow) in
    Covers env live fill narrow o.sent
    × (o.engine.hl_position_base
        ≡ (if ack.ok && ack.fill_confirmed then nought +ᵈ amount 249975 6 else nought))
    × (o.engine.strategy.state ≡ idle)
    × (o.engine.active_hl_oid ≡ none)
unfolding contains
fill_covered_example = fill_covered (narrow_at 3700) live (fill_of 249975) narrow refl refl

on_market_data-WithinLimit_example :
    All
      (WithinLimit engine_config nought (collect_snapshot engine_config (wide_at 3500)))
      (on_market_data (wide_at 3500) (wide_at 3501) new_engine (pos 3500)).sent
on_market_data-WithinLimit_example =
    on_market_data-WithinLimit (wide_at 3500) (wide_at 3501) new_engine (pos 3500)

placement_rate_example :
    pos 0 +ℤ pos (placements (all_sent new_engine day) * 3000)
    ≤ℤ (handle_all new_engine day).last_hl_place_ms
placement_rate_example = placement_rate 3000 new_engine day refl

trade_then_fill_example :
    let o = on_trade_event (wide_at 3600) live trade in
    let o' = on_hl_fill (wide_at 3700) o.engine (fill_of 249975) wide in
    (o.sent
      ≡ lighter_ioc (speculative_request live (collect_snapshot engine_config (wide_at 3600)) order)
        ∷ [])
    × (o'.sent ≡ [])
    × (o'.engine.strategy.state ≡ idle)
    × (o'.engine.active_hl_oid ≡ none)
    × (o'.engine.hl_position_base ≡ nought +ᵈ amount 249975 6)
unfolding contains on_trade_event is_stale_trade crosses_price is_too_small valid mid
    collect_snapshot
trade_then_fill_example =
    trade_then_fill (wide_at 3600) (wide_at 3700) live trade (fill_of 249975) wide refl refl refl
      refl refl refl

ahead : (micros : ℕ) → IsHedgedAhead hedged_ahead (fill_of micros)
unfolding contains
ahead micros = record { known = refl; hedged = refl; same_order = refl }

cancel_without_order_example :
    IsStuck (on_market_data (narrow_at 3600) (narrow_at 3601) waiting (pos 3600)).engine
unfolding valid mid collect_snapshot has_reverted hl_cancel_retry_at_ms ◌-ℤ◌
cancel_without_order_example =
    cancel_without_order (narrow_at 3600) (narrow_at 3601) waiting (pos 3600) resting-Inv refl refl
      refl (inr refl) refl refl refl

silent_forever_example :
    let days : List (Event Fixed) =
      market_data (wide_at 5000) (wide_at 5001) (pos 5000)
      ∷ trade_event (wide_at 5100) trade
      ∷ market_data (wide_at 90000) (wide_at 90001) (pos 90000)
      ∷ [] in
    IsStuck (handle_all stuck days) × (all_sent stuck days ≡ [])
silent_forever_example =
    silent_forever stuck
      (market_data (wide_at 5000) (wide_at 5001) (pos 5000)
        ∷ trade_event (wide_at 5100) trade
        ∷ market_data (wide_at 90000) (wide_at 90001) (pos 90000)
        ∷ [])
      (record { waiting = refl; no_order = refl; nothing_deferred = refl }) (tt, (tt, (tt, tt)))

live-EngineInv : EngineInv live
live-EngineInv = record { strategy_ok = resting-Inv; listed = refl; ahead = λ e. cc e }

late_fill_covered_example :
    let e' = (execute_cancel (narrow_at 3600) live no_op narrow).engine in
    let e'' = handle_all e' (
      market_data (narrow_at 3650) (narrow_at 3651) (pos 3650)
      ∷ trade_event (wide_at 3660) trade
      ∷ []) in
    (e'.strategy.state ≡ idle)
    × (e'.active_hl_oid ≡ none)
    × (e'.speculative_hedge_sent ≡ false)
    × (bought e'' ≡ bought live)
    × Covers
        (wide_at 3700)
        e''
        (fill_of 249975)
        wide
        (on_hl_fill (wide_at 3700) e'' (fill_of 249975) wide).sent
unfolding hl_cancel_retry_at_ms ◌-ℤ◌ all_sent handle on_market_data unless_logged execute_cancel
    is_blocked on_market_snapshot valid mid collect_snapshot effective_spread_bps execute_action
    on_trade_event
late_fill_covered_example =
    late_fill_covered (narrow_at 3600) (wide_at 3700) live no_op (fill_of 249975) narrow wide
      (market_data (narrow_at 3650) (narrow_at 3651) (pos 3650)
        ∷ trade_event (wide_at 3660) trade
        ∷ [])
      live-EngineInv refl refl refl (tt, (tt, tt)) refl
