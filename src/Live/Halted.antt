-- ===== src/Live/Halted.antt =====
-- Fills that arrive while quotes are stale, under the policy LtMakerHlTaker.
use mathlib.Core.List.{append-nil}
use hl_maker_lighter_arb_cpp.Common.{
  ◌≡◌, ◌∙◌, ap, true, none, some, [], ◌∷◌, ◌++◌, ◌&&◌, arith, if◌then◌else◌,
}
use hl_maker_lighter_arb_cpp.Double.{Double, lit, ◌<ᵈ◌}
use hl_maker_lighter_arb_cpp.Types.{idle, PendingMakerOrder}
use hl_maker_lighter_arb_cpp.Exchange.{hl_ioc, lighter_ioc}
use hl_maker_lighter_arb_cpp.Engine.Outcome.{Outcome}
use hl_maker_lighter_arb_cpp.Engine.LighterMaker.Execute.{hl_hedge_request, lighter_unwind_request}
use hl_maker_lighter_arb_cpp.Engine.LighterMaker.Handlers.{on_lighter_fill}
use hl_maker_lighter_arb_cpp.Engine.LighterMaker.Invariant.{LighterEngineInv}
use hl_maker_lighter_arb_cpp.Engine.LighterMaker.Coverage.{offsetting, lighter_fill_covered}
use hl_maker_lighter_arb_cpp.Live.Defs.{Tick, is_stale}
use hl_maker_lighter_arb_cpp.Live.KillSwitch.{HasBids}
use hl_maker_lighter_arb_cpp.Live.LighterPolicy.{
  LighterLive, QueuedLighterFill, drain_lighter_fills, lighter_lifted, lighter_tick, lighter_pass,
}

module _ {W : Type 0} ⦃d : Double W⦄ where
  stale_tick :
      (l : LighterLive W) (t : Tick W)
      → HasBids t
      → is_stale t ≡ true
      → let o = lighter_tick l t in
        (o.sent ≡ []) × (o.engine.engine ≡ l.engine) × (o.engine.risk.kill_switch ≡ true)
  unfolding lighter_tick
  stale_tick l t bids stale = (ground arith, ground arith, ground arith)

  -- In an engine that satisfies the invariant, a fill of the active order that is queued when the quotes of
  -- a venue are stale is offset on Hyperliquid all the same, and closed again on Lighter if that failed or
  -- filled nothing; the pass sends nothing else, leaves the kill switch on, and the engine is Idle with
  -- no active order.
  pub stale_fill_covered :
      (l : LighterLive W) (q : QueuedLighterFill W) (t : Tick W) {p : PendingMakerOrder W}
      → LighterEngineInv l.engine
      → l.engine.active_lighter_order_index ≡ some q.fill.order_index
      → l.engine.strategy.pending_maker ≡ some p
      → HasBids t
      → is_stale t ≡ true
      → let o = lighter_pass l (q ∷ []) t in
        let request = hl_hedge_request l.engine (offsetting p q.fill q.snapshot) in
        let ack = q.env.hl_place_ioc_order request in
        (o.sent
          ≡ hl_ioc request
            ∷ (if ack.ok && (lit 0 0 <ᵈ ack.filled_size)
                then []
                else lighter_ioc (lighter_unwind_request l.engine q.snapshot p.is_buy q.fill.size)
                  ∷ []))
        × (o.engine.risk.kill_switch ≡ true)
        × (o.engine.engine.strategy.state ≡ idle)
        × (o.engine.engine.active_lighter_order_index ≡ none)
  unfolding lighter_pass drain_lighter_fills
  stale_fill_covered l q t {p} v active pending bids stale =
      let (sends, state, index) =
        lighter_fill_covered q.env l.engine q.fill q.snapshot v active pending in
      let (silent, same, on) = stale_tick next t bids stale in
      (
        ap (λ s. (filled.sent ++ []) ++ s) silent ∙ append-nil _ ∙ append-nil _ ∙ sends,
        on,
        ap (λ e. e.strategy.state) same ∙ state,
        ap (λ e. e.active_lighter_order_index) same ∙ index,
      )
    where
      filled : Outcome W (LighterLive W)
      filled = lighter_lifted l (on_lighter_fill q.env l.engine q.fill q.snapshot)

      next : LighterLive W
      next = filled.engine
