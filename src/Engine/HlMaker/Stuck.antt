-- ===== src/Engine/HlMaker/Stuck.antt =====
-- An engine whose strategy waits for a cancel to be confirmed, with no order that could be filled.
use hl_maker_lighter_arb_cpp.Common.{◌≡◌, refl, ◌⊎◌, true, none, some, List, [], ◌∷◌, All, arith}
use hl_maker_lighter_arb_cpp.Common.Int.{ℤ}
use hl_maker_lighter_arb_cpp.Double.{Double}
use hl_maker_lighter_arb_cpp.Types.{
  cancelled_pending_confirm, pending_hl_maker, cancel_hl_maker, PendingMakerOrder, SpreadSnapshot,
  TradeEvent, valid,
}
use hl_maker_lighter_arb_cpp.Strategy.HlMaker.Defs.{on_market_snapshot, has_reverted}
use hl_maker_lighter_arb_cpp.Strategy.HlMaker.Invariant.{Inv}
use hl_maker_lighter_arb_cpp.Strategy.HlMaker.Orders.{cancel_iff}
use hl_maker_lighter_arb_cpp.Strategy.HlMaker.Hedging.{snapshot_while_cancelled, cancel_waits}
use hl_maker_lighter_arb_cpp.Exchange.{Answers}
use hl_maker_lighter_arb_cpp.Engine.Outcome.{collect_snapshot, unless_logged}
use hl_maker_lighter_arb_cpp.Engine.HlMaker.State.{
  MakerHedgeEngine, set_hl_position, hl_cancel_retry_at_ms,
}
use hl_maker_lighter_arb_cpp.Engine.HlMaker.Execute.{execute_action, execute_cancel}
use hl_maker_lighter_arb_cpp.Engine.HlMaker.MarketData.{
  on_market_data, run_strategy, execute_deferred_hl_action, is_blocked, too_early,
}
use hl_maker_lighter_arb_cpp.Engine.HlMaker.TradeEvent.{on_trade_event}
use hl_maker_lighter_arb_cpp.Engine.HlMaker.Trace.{
  Event, market_data, trade_event, sync_position, handle, handle_all, all_sent,
}

pub record IsStuck {W : Type 0} (e : MakerHedgeEngine W) : Type 0 where
  pub waiting : e.strategy.state ≡ cancelled_pending_confirm
  pub no_order : e.active_hl_oid ≡ none
  pub nothing_deferred : e.deferred_hl_action ≡ none

-- What a market without fills does: ticks, public trades, and the position read from the venue.
abbrev pub IsMarket : {W : Type 0} → Event W → Type 0
IsMarket (market_data env later now_ms) = Unit
IsMarket (trade_event env trade) = Unit
IsMarket (sync_position base) = Unit
IsMarket _ = ⊥

module _ {W : Type 0} ⦃d : Double W⦄ where
  run_strategy-IsStuck :
      (env : Answers W) (now : ℤ) (s : SpreadSnapshot W) (e : MakerHedgeEngine W)
      → IsStuck e
      → let o = run_strategy env now s e in IsStuck o.engine × (o.sent ≡ []) × (o.logs ≡ [])
  unfolding run_strategy is_blocked execute_action
  run_strategy-IsStuck env now s e k =
      ground (arith, snapshot_while_cancelled e.strategy s now e.hl_position_base k.waiting)

  tick-IsStuck :
      (env later : Answers W) (e : MakerHedgeEngine W) (now : ℤ)
      → IsStuck e
      → let o = on_market_data env later e now in IsStuck o.engine × (o.sent ≡ [])
  unfolding on_market_data execute_deferred_hl_action unless_logged
  tick-IsStuck env later e now k =
      ground (arith, run_strategy-IsStuck later now (collect_snapshot e.config env) e k)

  trade-IsStuck :
      (env : Answers W) (e : MakerHedgeEngine W) (trade : TradeEvent W)
      → IsStuck e
      → let o = on_trade_event env e trade in IsStuck o.engine × (o.sent ≡ [])
  unfolding on_trade_event
  trade-IsStuck env e trade k = ground arith

  handle-IsStuck :
      (e : MakerHedgeEngine W) (v : Event W)
      → IsStuck e
      → IsMarket v
      → IsStuck (handle e v).engine × ((handle e v).sent ≡ [])
  unfolding handle set_hl_position
  handle-IsStuck e (market_data env later now) k m = tick-IsStuck env later e now k
  handle-IsStuck e (trade_event env trade) k m = trade-IsStuck env e trade k
  handle-IsStuck e (sync_position base) k m = (
    record { waiting = k.waiting; no_order = k.no_order; nothing_deferred = k.nothing_deferred },
    refl,
  )
  handle-IsStuck e _ k m = absurd m

  -- A stuck engine never trades again by itself: without a late fill, whatever the market does and
  -- however long it lasts, it sends nothing and stays stuck.
  pub silent_forever :
      (e : MakerHedgeEngine W) (vs : List (Event W))
      → IsStuck e
      → All IsMarket vs
      → IsStuck (handle_all e vs) × (all_sent e vs ≡ [])
  unfolding handle_all all_sent
  silent_forever e [] k m = (k, refl)
  silent_forever e (v ∷ vs) k (m, ms) =
      let (still, silent) = handle-IsStuck e v k m in
      let (last, rest) = silent_forever (handle e v).engine vs still ms in (last, rw (silent, rest))

  run_strategy-cancel :
      (env : Answers W) (now : ℤ) (s : SpreadSnapshot W) (e : MakerHedgeEngine W)
      → (on_market_snapshot e.strategy s now e.hl_position_base).1.type ≡ cancel_hl_maker
      → e.active_hl_oid ≡ none
      → hl_cancel_retry_at_ms e env.steady_now_ms ≡ none
      → IsStuck (run_strategy env now s e).engine
  unfolding run_strategy is_blocked execute_action execute_cancel hl_cancel_retry_at_ms
  run_strategy-cancel env now s e c none_active due =
      ground (arith, cancel_waits e.strategy s now e.hl_position_base c)

  -- The way in: an order that was refused or is still deferred has no id, so when the spread reverts
  -- its cancel finds nothing to cancel, drops the deferred order, and leaves the engine stuck.
  pub cancel_without_order :
      (env later : Answers W) (e : MakerHedgeEngine W) (now : ℤ) {p : PendingMakerOrder W}
      → Inv e.strategy
      → e.strategy.state ≡ pending_hl_maker
      → e.strategy.pending_maker ≡ some p
      → e.active_hl_oid ≡ none
      → (e.deferred_hl_action ≡ none) ⊎ (too_early e.next_retry_steady_ms now ≡ true)
      → valid (collect_snapshot e.config env) e.strategy.config.max_quote_age_ms ≡ true
      → has_reverted e.strategy.config
          (collect_snapshot e.config env)
          p.direction
          p.entry_spread_bps
        ≡ true
      → hl_cancel_retry_at_ms e later.steady_now_ms ≡ none
      → IsStuck (on_market_data env later e now).engine
  unfolding on_market_data execute_deferred_hl_action unless_logged
  cancel_without_order env later e now {p} v pending order none_active early fresh reverted due =
      let s = collect_snapshot e.config env in
      let cancels =
        (cancel_iff e.strategy s now e.hl_position_base p v order).1 (pending, fresh, reverted) in
      ground (arith, run_strategy-cancel later now s e cancels none_active due)
