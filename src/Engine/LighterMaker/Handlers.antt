-- ===== src/Engine/LighterMaker/Handlers.antt =====
-- The handlers of LighterMakerTakerEngine, and how src/main_live.cpp drives them.
use hl_maker_lighter_arb_cpp.Common.{
  Bool, false, ◌&&◌, Option, none, some, List, [], ◌∷◌, if◌then◌else◌,
}
use hl_maker_lighter_arb_cpp.Common.Int.{ℤ, ltb_ℤ, leb_ℤ}
use hl_maker_lighter_arb_cpp.Double.{Double}
use hl_maker_lighter_arb_cpp.Types.{SpreadSnapshot}
use hl_maker_lighter_arb_cpp.Strategy.LighterMaker.Defs.{
  on_market_snapshot, on_lighter_maker_fill, on_hl_hedge_reject,
}
use hl_maker_lighter_arb_cpp.Exchange.{Answers}
use hl_maker_lighter_arb_cpp.Engine.Outcome.{Outcome, quiet, collect_snapshot, unless_logged}
use hl_maker_lighter_arb_cpp.Engine.LighterMaker.State.{LighterMakerTakerEngine}
use hl_maker_lighter_arb_cpp.Engine.LighterMaker.Execute.{execute_lighter_action}

-- A fill on Lighter, with the index of its order.
pub record LighterFill (W : Type 0) : Type 0 where
  pub price : W
  pub size : W
  pub order_index : ℤ

abbrev not_yet : Option ℤ → ℤ → Bool
not_yet none now_ms = false
not_yet (some retry_at) now_ms = ltb_ℤ now_ms retry_at

abbrev eq_ℤ : ℤ → ℤ → Bool
eq_ℤ a b = leb_ℤ a b && leb_ℤ b a

-- `active_lighter_order_index_ == order_index`, with an active order.
abbrev pub is_active : Option ℤ → ℤ → Bool
is_active none index = false
is_active (some active) index = eq_ℤ active index

module _ {W : Type 0} ⦃d : Double W⦄ where
  unfoldable pub execute_deferred_lighter_action :
      Answers W
      → LighterMakerTakerEngine W
      → ℤ
      → SpreadSnapshot W
      → Outcome W (LighterMakerTakerEngine W)
  execute_deferred_lighter_action env e now_ms snapshot = elim e.deferred_lighter_action [
    | none ↦ quiet e
    | some action ↦
        if not_yet e.next_retry_steady_ms now_ms
        then quiet e
        else execute_lighter_action env
            (record e { deferred_lighter_action = none; next_retry_steady_ms = none }) action
            snapshot
  ]

  -- `on_market_data` past the deferred action: ask the strategy, and carry out its answer.
  unfoldable pub run_lighter_strategy :
      Answers W
      → ℤ
      → SpreadSnapshot W
      → LighterMakerTakerEngine W
      → Outcome W (LighterMakerTakerEngine W)
  run_lighter_strategy env now_ms snapshot e =
      let (h, action) = on_market_snapshot e.strategy snapshot now_ms in
      execute_lighter_action env (record e { strategy = h }) action snapshot

  -- The first answers serve the snapshot and a deferred action, the second ones what follows.
  unfoldable pub on_lighter_market_data :
      Answers W → Answers W → LighterMakerTakerEngine W → ℤ → Outcome W (LighterMakerTakerEngine W)
  unfolding execute_deferred_lighter_action run_lighter_strategy
  on_lighter_market_data env later e now_ms =
      let snapshot = collect_snapshot e.config env in
      let deferred = execute_deferred_lighter_action env e now_ms snapshot in
      unless_logged deferred.logs deferred (run_lighter_strategy later now_ms snapshot)

  unfoldable pub on_lighter_fill :
      Answers W
      → LighterMakerTakerEngine W
      → LighterFill W
      → SpreadSnapshot W
      → Outcome W (LighterMakerTakerEngine W)
  unfolding on_lighter_maker_fill
  on_lighter_fill env e fill snapshot =
      if is_active e.active_lighter_order_index fill.order_index
      then (let (h, action) = on_lighter_maker_fill e.strategy fill.price fill.size snapshot in
          execute_lighter_action env (record e { strategy = h }) action snapshot)
      else quiet e

  unfoldable pub engine_on_hl_hedge_reject :
      Answers W → LighterMakerTakerEngine W → Outcome W (LighterMakerTakerEngine W)
  unfolding on_hl_hedge_reject
  engine_on_hl_hedge_reject env e =
      let (h, action) = on_hl_hedge_reject e.strategy in
      execute_lighter_action env (record e { strategy = h }) action (collect_snapshot e.config env)

pub data LighterEvent (W : Type 0) : Type 0 where
  lighter_market_data : Answers W → Answers W → ℤ → LighterEvent W
  lighter_fill : Answers W → LighterFill W → SpreadSnapshot W → LighterEvent W
  hl_hedge_reject : Answers W → LighterEvent W

module _ {W : Type 0} ⦃d : Double W⦄ where
  unfoldable pub handle_lighter :
      LighterMakerTakerEngine W → LighterEvent W → Outcome W (LighterMakerTakerEngine W)
  handle_lighter e (lighter_market_data env later now_ms) =
      on_lighter_market_data env later e now_ms
  handle_lighter e (lighter_fill env fill snapshot) = on_lighter_fill env e fill snapshot
  handle_lighter e (hl_hedge_reject env) = engine_on_hl_hedge_reject env e

  -- The engine after the events.
  unfoldable pub handle_all_lighter :
      LighterMakerTakerEngine W → List (LighterEvent W) → LighterMakerTakerEngine W
  handle_all_lighter e [] = e
  handle_all_lighter e (v ∷ vs) = handle_all_lighter (handle_lighter e v).engine vs
