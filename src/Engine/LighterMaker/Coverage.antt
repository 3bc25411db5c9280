-- ===== src/Engine/LighterMaker/Coverage.antt =====
-- What LighterMakerTakerEngine does with a fill on Lighter.
use hl_maker_lighter_arb_cpp.Common.{
  ◌≡◌, true, not, none, some, [], ◌∷◌, ◌&&◌, arith, if◌then◌else◌,
}
use hl_maker_lighter_arb_cpp.Double.{Double, lit, ◌<ᵈ◌}
use hl_maker_lighter_arb_cpp.Types.{idle, Action, HlHedgeIntent, PendingMakerOrder, SpreadSnapshot}
use hl_maker_lighter_arb_cpp.Strategy.Pricing.{aggressive_hl_price}
use hl_maker_lighter_arb_cpp.Strategy.LighterMaker.Defs.{build_hl_hedge, reset}
use hl_maker_lighter_arb_cpp.Exchange.{Answers, hl_ioc, lighter_ioc}
use hl_maker_lighter_arb_cpp.Engine.Outcome.{quiet}
use hl_maker_lighter_arb_cpp.Engine.LighterMaker.State.{
  LighterMakerTakerEngine, lighter_cancel_retry_at_ms,
}
use hl_maker_lighter_arb_cpp.Engine.LighterMaker.Execute.{
  execute_lighter_cancel, execute_lighter_action, execute_lighter_type, execute_hl_hedge,
  hl_hedge_request, lighter_unwind_request,
}
use hl_maker_lighter_arb_cpp.Engine.LighterMaker.Handlers.{LighterFill, on_lighter_fill}
use hl_maker_lighter_arb_cpp.Engine.LighterMaker.Invariant.{LighterEngineInv}

module _ {W : Type 0} ⦃d : Double W⦄ where
  -- The hedge of a fill: the other side of the order that was filled, at the size of the fill.
  abbrev pub offsetting : PendingMakerOrder W → LighterFill W → SpreadSnapshot W → HlHedgeIntent W
  offsetting p fill s = record {
    is_buy = not p.is_buy;
    limit_price = aggressive_hl_price s p.direction;
    size_base = fill.size;
  }

  -- In an engine that satisfies the invariant, a fill of the active order is offset on Hyperliquid at
  -- once; if that failed or filled nothing, an order on Lighter closes the fill again, on the other side
  -- of the order and at the size of the fill. The engine is then Idle with no active order.
  pub lighter_fill_covered :
      (env : Answers W) (e : LighterMakerTakerEngine W) (fill : LighterFill W)
      (s : SpreadSnapshot W) {p : PendingMakerOrder W}
      → LighterEngineInv e
      → e.active_lighter_order_index ≡ some fill.order_index
      → e.strategy.pending_maker ≡ some p
      → let o = on_lighter_fill env e fill s in
        let request = hl_hedge_request e (offsetting p fill s) in
        let ack = env.hl_place_ioc_order request in
        (o.sent
          ≡ hl_ioc request
            ∷ (if ack.ok && (lit 0 0 <ᵈ ack.filled_size)
                then []
                else lighter_ioc (lighter_unwind_request e s p.is_buy fill.size) ∷ []))
        × (o.engine.strategy.state ≡ idle)
        × (o.engine.active_lighter_order_index ≡ none)
  unfolding on_lighter_fill execute_lighter_action execute_lighter_type execute_hl_hedge
      build_hl_hedge reset
  lighter_fill_covered env e fill s {p} v active pending =
      (ground arith, ground arith, ground arith)

  -- Only the first part of an order that is filled in parts is hedged: right after a fill of the active
  -- order any fill, of the same order too, sends nothing and changes nothing.
  later_part_ignored :
      (env env' : Answers W) (e : LighterMakerTakerEngine W) (fill fill' : LighterFill W)
      (s s' : SpreadSnapshot W)
      → LighterEngineInv e
      → e.active_lighter_order_index ≡ some fill.order_index
      → let e' = (on_lighter_fill env e fill s).engine in
        on_lighter_fill env' e' fill' s' ≡ quiet e'
  unfolding on_lighter_fill execute_lighter_action execute_lighter_type execute_hl_hedge
  later_part_ignored env env' e fill fill' s s' v active = ground arith

  -- A cancel that Lighter accepts forgets the order, so a fill of it that was under way is ignored: it
  -- sends nothing and changes nothing.
  pub late_lighter_fill_ignored :
      (env env' : Answers W) (e : LighterMakerTakerEngine W) (a : Action W) (fill : LighterFill W)
      (s : SpreadSnapshot W)
      → e.active_lighter_order_index ≡ some fill.order_index
      → lighter_cancel_retry_at_ms e env.steady_now_ms ≡ none
      → (env.lighter_cancel_order fill.order_index e.config.dry_run).ok ≡ true
      → let e' = (execute_lighter_cancel env e a).engine in
        on_lighter_fill env' e' fill s ≡ quiet e'
  unfolding on_lighter_fill execute_lighter_cancel lighter_cancel_retry_at_ms
  late_lighter_fill_ignored env env' e a fill s active due acked = ground arith
