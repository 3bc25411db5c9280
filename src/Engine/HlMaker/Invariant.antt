-- ===== src/Engine/HlMaker/Invariant.antt =====
-- What holds of MakerHedgeEngine between two events, whatever the venues answer.
use text.Mathlib.TextEquality.{eq_iff}
use Prim.Native.String.{String}
use hl_maker_lighter_arb_cpp.Common.{
  ◌≡◌, true, Option, none, some, Option-cases, Bool-cases, inl, inr, List, [], ◌∷◌, arith,
}
use hl_maker_lighter_arb_cpp.Common.Int.{ℤ}
use hl_maker_lighter_arb_cpp.Double.{Double}
use hl_maker_lighter_arb_cpp.Types.{
  ActionType, place_hl_maker, cancel_hl_maker, send_lighter_taker_hedge, Action, SpreadSnapshot,
  TradeEvent,
}
use hl_maker_lighter_arb_cpp.Strategy.Pricing.{created}
use hl_maker_lighter_arb_cpp.Strategy.HlMaker.Defs.{
  HlMakerLighterHedger, construct, on_market_snapshot, on_lighter_hedge_reject, reset,
}
use hl_maker_lighter_arb_cpp.Strategy.HlMaker.Invariant.{
  Inv, on_market_snapshot-Inv, reset-Inv, reject-Inv, hedge_fill-Inv,
}
use hl_maker_lighter_arb_cpp.Exchange.{Answers}
use hl_maker_lighter_arb_cpp.Engine.Outcome.{
  Outcome, EngineConfig, EventLog, collect_snapshot, unless_logged,
}
use hl_maker_lighter_arb_cpp.Engine.HlMaker.State.{
  MakerHedgeEngine, construct_engine, contains, reset_strategy, set_hl_position,
}
use hl_maker_lighter_arb_cpp.Engine.HlMaker.Execute.{
  execute_action, execute_type, execute_place, execute_cancel, execute_hedge, execute_unwind,
}
use hl_maker_lighter_arb_cpp.Engine.HlMaker.Fill.{HlFill, on_hl_fill}
use hl_maker_lighter_arb_cpp.Engine.HlMaker.MarketData.{
  on_market_data, run_strategy, is_blocked, execute_deferred_hl_action,
  engine_on_lighter_hedge_reject, engine_on_lighter_hedge_fill,
}
use hl_maker_lighter_arb_cpp.Engine.HlMaker.TradeEvent.{on_trade_event}
use hl_maker_lighter_arb_cpp.Engine.HlMaker.Trace.{
  Event, market_data, hl_fill, trade_event, lighter_reject, lighter_fill, sync_position, handle,
  handle_all,
}

-- The active order, and no other, is one whose fills are listened to.
abbrev pub IsListed : Option String → List String → Type 0
IsListed none oids = Unit
IsListed (some oid) oids = oids ≡ oid ∷ []

pub record EngineInv {W : Type 0} (e : MakerHedgeEngine W) : Type 0 where
  pub strategy_ok : Inv e.strategy
  pub listed : IsListed e.active_hl_oid e.recently_placed_oids
  pub ahead : e.speculative_hedge_sent ≡ true → e.active_hl_oid ≡ some e.speculative_hedge_oid

module _ {W : Type 0} ⦃d : Double W⦄ where
  execute_place-EngineInv :
      (env : Answers W) (e : MakerHedgeEngine W) (a : Action W) (s : SpreadSnapshot W)
      → EngineInv e
      → EngineInv (execute_place env e a s).engine
  unfolding execute_place
  execute_place-EngineInv env e a s v = ground (arith, reset-Inv e.strategy)

  execute_cancel-EngineInv :
      (env : Answers W) (e : MakerHedgeEngine W) (a : Action W) (s : SpreadSnapshot W)
      → EngineInv e
      → EngineInv (execute_cancel env e a s).engine
  unfolding execute_cancel
  execute_cancel-EngineInv env e a s v = ground (arith, reset-Inv e.strategy)

  on_hl_fill-EngineInv :
      (env : Answers W) (e : MakerHedgeEngine W) (fill : HlFill W) (s : SpreadSnapshot W)
      → EngineInv e
      → EngineInv (on_hl_fill env e fill s).engine
  unfolding on_hl_fill contains
  on_hl_fill-EngineInv env e fill s v = ground (
    arith,
    reset-Inv e.strategy,
    eq_iff fill.oid e.speculative_hedge_oid,
    eq_iff e.speculative_hedge_oid fill.oid,
  )

  on_trade_event-EngineInv :
      (env : Answers W) (e : MakerHedgeEngine W) (trade : TradeEvent W)
      → EngineInv e
      → EngineInv (on_trade_event env e trade).engine
  unfolding on_trade_event
  on_trade_event-EngineInv env e trade v = ground arith

  execute_hedge-EngineInv :
      (env : Answers W) (e : MakerHedgeEngine W) (a : Action W) (s : SpreadSnapshot W)
      → EngineInv e
      → EngineInv (execute_hedge env e a s).engine
  unfolding execute_hedge
  execute_hedge-EngineInv env e a s v =
      ground (arith, reject-Inv e.strategy v.strategy_ok, reset-Inv e.strategy)

  execute_type-EngineInv :
      (t : ActionType) (env : Answers W) (e : MakerHedgeEngine W) (a : Action W)
      (s : SpreadSnapshot W)
      → EngineInv e
      → EngineInv (execute_type t env e a s).engine
  unfolding execute_type execute_unwind
  execute_type-EngineInv place_hl_maker env e a s v = execute_place-EngineInv env e a s v
  execute_type-EngineInv cancel_hl_maker env e a s v = execute_cancel-EngineInv env e a s v
  execute_type-EngineInv send_lighter_taker_hedge env e a s v = execute_hedge-EngineInv env e a s v
  execute_type-EngineInv _ env e a s v = v

  with_strategy-EngineInv :
      (e : MakerHedgeEngine W) (h : HlMakerLighterHedger W)
      → EngineInv e
      → Inv h
      → EngineInv (record e { strategy = h })
  with_strategy-EngineInv e h v w = record { strategy_ok = w; listed = v.listed; ahead = v.ahead }

  run_strategy-EngineInv :
      (env : Answers W) (now : ℤ) (s : SpreadSnapshot W) (e : MakerHedgeEngine W)
      → EngineInv e
      → EngineInv (run_strategy env now s e).engine
  unfolding run_strategy execute_action reset_strategy
  run_strategy-EngineInv env now s e v =
      let (h, action) = on_market_snapshot e.strategy s now e.hl_position_base in
      let w = on_market_snapshot-Inv e.strategy s now e.hl_position_base v.strategy_ok in
      elim (Bool-cases (is_blocked e s action)) [
        | inl blocked ↦ rw blocked (with_strategy-EngineInv e (reset h) v (reset-Inv h))
        | inr free ↦ rw free (
            execute_type-EngineInv action.type env (record e { strategy = h }) action s
              (with_strategy-EngineInv e h v w))
      ]

  deferred-EngineInv :
      (env : Answers W) (e : MakerHedgeEngine W) (now : ℤ) (s : SpreadSnapshot W)
      → EngineInv e
      → EngineInv (execute_deferred_hl_action env e now s).engine
  unfolding execute_deferred_hl_action execute_action
  deferred-EngineInv env e now s v = elim (Option-cases e.deferred_hl_action) [
    | inl f ↦ ground arith
    | inr (a, f) ↦
        let due = record e { deferred_hl_action = none; next_retry_steady_ms = none } in
        let w : EngineInv due = record {
          strategy_ok = v.strategy_ok;
          listed = v.listed;
          ahead = v.ahead;
        } in
        ground (arith, execute_type-EngineInv a.type env due a s w)
  ]

  unless_logged-EngineInv :
      (logs : List (EventLog W)) (first : Outcome W (MakerHedgeEngine W))
      (rest : MakerHedgeEngine W → Outcome W (MakerHedgeEngine W))
      → EngineInv first.engine
      → EngineInv (rest first.engine).engine
      → EngineInv (unless_logged logs first rest).engine
  unfolding unless_logged
  unless_logged-EngineInv [] first rest v w = w
  unless_logged-EngineInv (_ ∷ _) first rest v w = v

  on_market_data-EngineInv :
      (env later : Answers W) (e : MakerHedgeEngine W) (now : ℤ)
      → EngineInv e
      → EngineInv (on_market_data env later e now).engine
  unfolding on_market_data
  on_market_data-EngineInv env later e now v =
      let s = collect_snapshot e.config env in
      let first = execute_deferred_hl_action env e now s in
      let w = deferred-EngineInv env e now s v in
      unless_logged-EngineInv first.logs first (run_strategy later now s) w
        (run_strategy-EngineInv later now s first.engine w)

  handle-EngineInv :
      (e : MakerHedgeEngine W) (v : Event W) → EngineInv e → EngineInv (handle e v).engine
  unfolding handle engine_on_lighter_hedge_reject engine_on_lighter_hedge_fill set_hl_position
      execute_action
  handle-EngineInv e (market_data env later now) w = on_market_data-EngineInv env later e now w
  handle-EngineInv e (hl_fill env fill s) w = on_hl_fill-EngineInv env e fill s w
  handle-EngineInv e (trade_event env trade) w = on_trade_event-EngineInv env e trade w
  handle-EngineInv e (lighter_reject env) w =
      let (h, action) = on_lighter_hedge_reject e.strategy in
      execute_type-EngineInv action.type env (record e { strategy = h }) action
        (collect_snapshot e.config env)
        (with_strategy-EngineInv e h w (reject-Inv e.strategy w.strategy_ok))
  handle-EngineInv e (lighter_fill px) w =
      with_strategy-EngineInv e _ w (hedge_fill-Inv e.strategy px w.strategy_ok)
  handle-EngineInv e (sync_position base) w = record {
    strategy_ok = w.strategy_ok;
    listed = w.listed;
    ahead = w.ahead;
  }

  handle_all-EngineInv :
      (e : MakerHedgeEngine W) (vs : List (Event W)) → EngineInv e → EngineInv (handle_all e vs)
  unfolding handle_all
  handle_all-EngineInv e [] w = w
  handle_all-EngineInv e (v ∷ vs) w =
      handle_all-EngineInv (handle e v).engine vs (handle-EngineInv e v w)

  construct_engine-EngineInv :
      (c : EngineConfig W) {e : MakerHedgeEngine W} → construct_engine c ≡ created e → EngineInv e
  unfolding construct_engine construct
  construct_engine-EngineInv c f = ground arith

  -- After any events on a newly constructed engine, with any answers of the venues: the strategy
  -- satisfies its invariant, the active order is the only one whose fills are listened to, and a hedge
  -- that was sent ahead belongs to the active order.
  pub engine_run-Inv :
      (c : EngineConfig W) (vs : List (Event W)) {e : MakerHedgeEngine W}
      → construct_engine c ≡ created e
      → EngineInv (handle_all e vs)
  engine_run-Inv c vs f = handle_all-EngineInv _ vs (construct_engine-EngineInv c f)
