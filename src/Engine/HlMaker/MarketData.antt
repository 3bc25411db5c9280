-- ===== src/Engine/HlMaker/MarketData.antt =====
-- `MakerHedgeEngine::on_market_data`, `execute_deferred_hl_action` and the two methods that a caller
-- reports a Lighter hedge by.
use hl_maker_lighter_arb_cpp.Common.{Bool, true, false, ◌&&◌, Option, none, some, if◌then◌else◌}
use hl_maker_lighter_arb_cpp.Common.Int.{ℤ, ltb_ℤ}
use hl_maker_lighter_arb_cpp.Double.{Double}
use hl_maker_lighter_arb_cpp.Types.{
  Action, ActionType, place_hl_maker, PendingMakerOrder, SpreadSnapshot, mid,
}
use hl_maker_lighter_arb_cpp.Strategy.HlMaker.Defs.{
  on_market_snapshot, on_lighter_hedge_fill, on_lighter_hedge_reject,
}
use hl_maker_lighter_arb_cpp.Exchange.{Answers}
use hl_maker_lighter_arb_cpp.Engine.Outcome.{Outcome, quiet, unless_logged, collect_snapshot}
use hl_maker_lighter_arb_cpp.Engine.HlMaker.State.{
  MakerHedgeEngine, position_limit_reached, would_increase, reset_strategy,
}
use hl_maker_lighter_arb_cpp.Engine.HlMaker.Execute.{execute_action}

abbrev pub too_early : Option ℤ → ℤ → Bool
too_early none now_ms = false
too_early (some retry_at) now_ms = ltb_ℤ now_ms retry_at

abbrev pub is_place : ActionType → Bool
is_place place_hl_maker = true
is_place _ = false

module _ {W : Type 0} ⦃d : Double W⦄ where
  unfoldable pub execute_deferred_hl_action :
      Answers W → MakerHedgeEngine W → ℤ → SpreadSnapshot W → Outcome W (MakerHedgeEngine W)
  execute_deferred_hl_action env e now_ms snapshot = elim e.deferred_hl_action [
    | none ↦ quiet e
    | some action ↦
        if too_early e.next_retry_steady_ms now_ms
        then quiet e
        else execute_action env
            (record e { deferred_hl_action = none; next_retry_steady_ms = none }) action snapshot
  ]

  abbrev pub increases : MakerHedgeEngine W → Option (PendingMakerOrder W) → Bool
  increases e none = false
  increases e (some order) = would_increase e.hl_position_base order.is_buy

  -- The placement would add to a position that is at its limit.
  unfoldable pub is_blocked : MakerHedgeEngine W → SpreadSnapshot W → Action W → Bool
  is_blocked e snapshot action =
      is_place action.type
      && position_limit_reached e (mid snapshot.hl)
      && increases e action.maker_order

  -- `on_market_data` past the deferred action: ask the strategy, and carry out its answer.
  unfoldable pub run_strategy :
      Answers W → ℤ → SpreadSnapshot W → MakerHedgeEngine W → Outcome W (MakerHedgeEngine W)
  unfolding reset_strategy
  run_strategy env now_ms snapshot e =
      let (h, action) = on_market_snapshot e.strategy snapshot now_ms e.hl_position_base in
      let decided = record e { strategy = h } in
      if is_blocked e snapshot action
      then quiet (reset_strategy decided)
      else execute_action env decided action snapshot

  -- The first answers serve the snapshot and a deferred action, the second ones what follows.
  unfoldable pub on_market_data :
      Answers W → Answers W → MakerHedgeEngine W → ℤ → Outcome W (MakerHedgeEngine W)
  unfolding execute_deferred_hl_action run_strategy
  on_market_data env later e now_ms =
      let snapshot = collect_snapshot e.config env in
      let deferred = execute_deferred_hl_action env e now_ms snapshot in
      unless_logged deferred.logs deferred (run_strategy later now_ms snapshot)

  unfoldable pub engine_on_lighter_hedge_reject :
      Answers W → MakerHedgeEngine W → Outcome W (MakerHedgeEngine W)
  unfolding on_lighter_hedge_reject
  engine_on_lighter_hedge_reject env e =
      let (h, action) = on_lighter_hedge_reject e.strategy in
      execute_action env (record e { strategy = h }) action (collect_snapshot e.config env)

  unfoldable pub engine_on_lighter_hedge_fill : MakerHedgeEngine W → W → MakerHedgeEngine W
  unfolding on_lighter_hedge_fill
  engine_on_lighter_hedge_fill e fill_price = record e {
    strategy = on_lighter_hedge_fill e.strategy fill_price;
  }
