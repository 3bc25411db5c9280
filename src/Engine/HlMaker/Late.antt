-- ===== src/Engine/HlMaker/Late.antt =====
-- A fill that comes after its order was cancelled.
use text.Mathlib.TextPositions.{eq_refl}
use Prim.Native.String.{String}
use hl_maker_lighter_arb_cpp.Common.{
  ◌≡◌, ap, ◌∙◌, true, false, none, some, List, [], ◌∷◌, All, arith,
}
use hl_maker_lighter_arb_cpp.Double.{Double}
use hl_maker_lighter_arb_cpp.Types.{
  idle, Action, SpreadSnapshot, PendingMakerOrder, eq_direction, short_lighter_long_hl,
}
use hl_maker_lighter_arb_cpp.Strategy.HlMaker.Defs.{reset}
use hl_maker_lighter_arb_cpp.Exchange.{Answers}
use hl_maker_lighter_arb_cpp.Engine.Outcome.{quiet}
use hl_maker_lighter_arb_cpp.Engine.HlMaker.State.{
  MakerHedgeEngine, contains, hl_cancel_retry_at_ms,
}
use hl_maker_lighter_arb_cpp.Engine.HlMaker.Execute.{after_place, execute_cancel}
use hl_maker_lighter_arb_cpp.Engine.HlMaker.Trace.{Event, handle_all, all_sent}
use hl_maker_lighter_arb_cpp.Engine.HlMaker.Fill.{HlFill, on_hl_fill}
use hl_maker_lighter_arb_cpp.Engine.HlMaker.Invariant.{EngineInv}
use hl_maker_lighter_arb_cpp.Engine.HlMaker.Rate.{placements}
use hl_maker_lighter_arb_cpp.Engine.HlMaker.Stuck.{IsMarket}
use hl_maker_lighter_arb_cpp.Engine.HlMaker.Coverage.{bought, Covers, fill_covered}
use hl_maker_lighter_arb_cpp.Engine.HlMaker.Ready.{handle_all-Ready}

module _ {W : Type 0} ⦃d : Double W⦄ where
  -- A fill that was under way when its order was cancelled is still covered as long as no further maker
  -- order goes out. In an engine that keeps its invariant, the accepted cancel of the active order
  -- leaves the engine Idle with no active order and no hedge sent ahead, and whatever ticks, public
  -- trades and position reports follow, if none of them places an order, the fill of the cancelled order
  -- is then offset on Lighter, on the side of that order, or else closed on Hyperliquid.
  pub late_fill_covered :
      (env env' : Answers W) (e : MakerHedgeEngine W) (a : Action W) (fill : HlFill W)
      (s s' : SpreadSnapshot W) (vs : List (Event W))
      → EngineInv e
      → e.active_hl_oid ≡ some fill.oid
      → hl_cancel_retry_at_ms e env.steady_now_ms ≡ none
      → (env.hl_cancel_order e.config.hl_coin fill.oid e.config.dry_run).ok ≡ true
      → All IsMarket vs
      → placements (all_sent (execute_cancel env e a s).engine vs) ≡ 0
      → let e' = (execute_cancel env e a s).engine in
        let e'' = handle_all e' vs in
        (e'.strategy.state ≡ idle)
        × (e'.active_hl_oid ≡ none)
        × (e'.speculative_hedge_sent ≡ false)
        × (bought e'' ≡ bought e)
        × Covers env' e'' fill s' (on_hl_fill env' e'' fill s').sent
  unfolding execute_cancel hl_cancel_retry_at_ms contains reset
  late_fill_covered env env' e a fill s s' vs v active due acked markets silent =
      let e' = (execute_cancel env e a s).engine in
      let e'' = handle_all e' vs in
      let self = eq_refl fill.oid in
      let free : e'.active_hl_oid ≡ none = ground arith in
      let known : contains e'.recently_placed_oids fill.oid ≡ true = ground arith in
      let fresh : e'.speculative_hedge_sent ≡ false = ground arith in
      let side : e'.last_maker_direction ≡ e.last_maker_direction = ground arith in
      let ready = handle_all-Ready e' vs markets free silent in
      (
        ground arith,
        free,
        fresh,
        ap (λ t. eq_direction t short_lighter_long_hl) (ready.same_direction ∙ side),
        (fill_covered env' e'' fill s' (ap (λ oids. contains oids fill.oid) ready.same_oids ∙ known)
            (ready.same_hedge ∙ fresh)).0,
      )

  -- Once a further order is accepted under another id, the fill of the one before is not known any more: it
  -- is dropped, and nothing is sent for it.
  forgotten_fill :
      (env env' : Answers W) (e : MakerHedgeEngine W) (order : PendingMakerOrder W) (oid : String)
      (fill : HlFill W) (s : SpreadSnapshot W)
      → contains (oid ∷ []) fill.oid ≡ false
      → let e' =
          (after_place env e order (record { ok = true; message = "ok"; oid = oid })).engine in
        on_hl_fill env' e' fill s ≡ quiet e'
  unfolding after_place on_hl_fill
  forgotten_fill env env' e order oid fill s other = ground arith
