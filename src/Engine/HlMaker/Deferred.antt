-- ===== src/Engine/HlMaker/Deferred.antt =====
-- A placement that was put off by the rate limit, and a fill that comes before it is carried out.
use hl_maker_lighter_arb_cpp.Common.{◌≡◌, ◌∙◌, ap, true, false, none, some, [], ◌∷◌, arith}
use hl_maker_lighter_arb_cpp.Common.Int.{ℤ}
use hl_maker_lighter_arb_cpp.Double.{Double}
use hl_maker_lighter_arb_cpp.Types.{idle, place_hl_maker, Action, PendingMakerOrder, SpreadSnapshot}
use hl_maker_lighter_arb_cpp.Exchange.{Answers, hl_limit}
use hl_maker_lighter_arb_cpp.Engine.Outcome.{collect_snapshot, unless_logged}
use hl_maker_lighter_arb_cpp.Engine.HlMaker.State.{
  MakerHedgeEngine, contains, limit_blocks, hl_place_retry_at_ms,
}
use hl_maker_lighter_arb_cpp.Engine.HlMaker.Execute.{execute_action, execute_place, place_request}
use hl_maker_lighter_arb_cpp.Engine.HlMaker.Fill.{HlFill, on_hl_fill}
use hl_maker_lighter_arb_cpp.Engine.HlMaker.MarketData.{
  on_market_data, execute_deferred_hl_action, too_early,
}

module _ {W : Type 0} ⦃d : Double W⦄ where
  -- A fill resets the strategy, and leaves the deferred action and its time as they are.
  fill-deferred :
      (env : Answers W) (e : MakerHedgeEngine W) (fill : HlFill W) (s : SpreadSnapshot W)
      → contains e.recently_placed_oids fill.oid ≡ true
      → e.speculative_hedge_sent ≡ false
      → let e' = (on_hl_fill env e fill s).engine in
        (e'.strategy.state ≡ idle)
        × (e'.strategy.pending_maker ≡ none)
        × (e'.deferred_hl_action ≡ e.deferred_hl_action)
        × (e'.next_retry_steady_ms ≡ e.next_retry_steady_ms)
  unfolding on_hl_fill
  fill-deferred env e fill s known fresh = ground arith

  due-place :
      (env later : Answers W) (e : MakerHedgeEngine W) (now : ℤ) {a : Action W}
      {order : PendingMakerOrder W}
      → e.deferred_hl_action ≡ some a
      → a.type ≡ place_hl_maker
      → a.maker_order ≡ some order
      → too_early e.next_retry_steady_ms now ≡ false
      → limit_blocks e order (collect_snapshot e.config env) ≡ false
      → hl_place_retry_at_ms e env.steady_now_ms ≡ none
      → (env.hl_place_limit_order (place_request e order)).ok ≡ true
      → let o = on_market_data env later e now in
        (o.sent ≡ hl_limit (place_request e order) ∷ [])
        × (o.engine.strategy ≡ e.strategy)
        × (o.engine.active_hl_oid ≡ some (env.hl_place_limit_order (place_request e order)).oid)
  unfolding on_market_data execute_deferred_hl_action execute_action execute_place unless_logged
      limit_blocks hl_place_retry_at_ms
  due-place env later e now {a} {order} f is_place has_order due free rate accepted = ground arith

  -- A deferred placement survives the fill that ends its trade: the fill resets the strategy to Idle,
  -- and once the delay is over the next tick still places the order, which the strategy then does not
  -- know of.
  deferred_outlives_fill :
      (env env' later : Answers W) (e : MakerHedgeEngine W) (fill : HlFill W) (s : SpreadSnapshot W)
      (now : ℤ) {a : Action W} {order : PendingMakerOrder W}
      → contains e.recently_placed_oids fill.oid ≡ true
      → e.speculative_hedge_sent ≡ false
      → e.deferred_hl_action ≡ some a
      → a.type ≡ place_hl_maker
      → a.maker_order ≡ some order
      → too_early e.next_retry_steady_ms now ≡ false
      → let e' = (on_hl_fill env e fill s).engine in
        limit_blocks e' order (collect_snapshot e'.config env') ≡ false
        → hl_place_retry_at_ms e' env'.steady_now_ms ≡ none
        → (env'.hl_place_limit_order (place_request e' order)).ok ≡ true
        → let o = on_market_data env' later e' now in
          (o.sent ≡ hl_limit (place_request e' order) ∷ [])
          × (o.engine.strategy.state ≡ idle)
          × (o.engine.strategy.pending_maker ≡ none)
          × (o.engine.active_hl_oid ≡ some (env'.hl_place_limit_order (place_request e' order)).oid)
  deferred_outlives_fill env env' later e fill s now {a} {order} known fresh f is_place has_order
        due free rate accepted =
      let (at_idle, no_pending, kept, retry) = fill-deferred env e fill s known fresh in
      let e' = (on_hl_fill env e fill s).engine in
      let (placed, same, live) =
        due-place env' later e' now (kept ∙ f) is_place has_order
          (ap (λ t. too_early t now) retry ∙ due) free rate accepted in
      (placed, ap (λ h. h.state) same ∙ at_idle, ap (λ h. h.pending_maker) same ∙ no_pending, live)
