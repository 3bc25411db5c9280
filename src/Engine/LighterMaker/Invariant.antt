-- ===== src/Engine/LighterMaker/Invariant.antt =====
-- What holds of LighterMakerTakerEngine between two events, whatever the venues answer.
use hl_maker_lighter_arb_cpp.Common.{
  ◌≡◌, refl, true, Option, none, some, Option-cases, inl, inr, has_value, List, [], ◌∷◌, arith,
}
use hl_maker_lighter_arb_cpp.Common.Int.{ℤ}
use hl_maker_lighter_arb_cpp.Double.{Double}
use hl_maker_lighter_arb_cpp.Types.{
  Direction, StrategyState, idle, pending_lighter_maker, cancelled_pending_lighter_confirm,
  ActionType, no_action, place_lighter_maker, cancel_lighter_maker, Action, PendingMakerOrder,
  SpreadSnapshot,
}
use hl_maker_lighter_arb_cpp.Strategy.Pricing.{created}
use hl_maker_lighter_arb_cpp.Strategy.LighterMaker.Defs.{construct, on_market_snapshot, reset}
use hl_maker_lighter_arb_cpp.Strategy.LighterMaker.Invariant.{Inv, on_market_snapshot-Inv}
use hl_maker_lighter_arb_cpp.Exchange.{Answers}
use hl_maker_lighter_arb_cpp.Engine.Outcome.{
  Outcome, EngineConfig, EventLog, collect_snapshot, unless_logged,
}
use hl_maker_lighter_arb_cpp.Engine.LighterMaker.State.{
  LighterMakerTakerEngine, construct_lighter_engine,
}
use hl_maker_lighter_arb_cpp.Engine.LighterMaker.Execute.{
  execute_lighter_action, execute_lighter_type, execute_lighter_place, execute_lighter_cancel,
  execute_hl_hedge,
}
use hl_maker_lighter_arb_cpp.Engine.LighterMaker.Handlers.{
  LighterFill, on_lighter_market_data, run_lighter_strategy, execute_deferred_lighter_action,
  on_lighter_fill, engine_on_hl_hedge_reject, LighterEvent, lighter_market_data, lighter_fill,
  hl_hedge_reject, handle_lighter, handle_all_lighter,
}

-- No fill waits for its hedge, and no position is open.
abbrev pub IsSettled : StrategyState → Type 0
IsSettled idle = Unit
IsSettled pending_lighter_maker = Unit
IsSettled cancelled_pending_lighter_confirm = Unit
IsSettled _ = ⊥

-- An active order is the strategy's own, on the side that the engine would unwind.
abbrev pub IsBacked : {W : Type 0} → Option ℤ → Option (PendingMakerOrder W) → Direction → Type 0
IsBacked none pending dir = Unit
IsBacked (some index) none dir = ⊥
IsBacked (some index) (some p) dir = p.direction ≡ dir

-- A deferred placement is the order that the strategy waits for, with none active; otherwise only a
-- cancel is deferred.
abbrev pub IsAwaited :
    {W : Type 0} → ActionType → Action W → Option ℤ → Option (PendingMakerOrder W) → Type 0
IsAwaited place_lighter_maker a active pending =
    (active ≡ none) × (a.maker_order ≡ pending) × (has_value pending ≡ true)
IsAwaited cancel_lighter_maker a active pending = Unit
IsAwaited _ a active pending = ⊥

abbrev pub IsDeferrable :
    {W : Type 0} → Option (Action W) → Option ℤ → Option (PendingMakerOrder W) → Type 0
IsDeferrable none active pending = Unit
IsDeferrable (some a) active pending = IsAwaited a.type a active pending

pub record LighterEngineInv {W : Type 0} (e : LighterMakerTakerEngine W) : Type 0 where
  pub strategy_ok : Inv e.strategy
  pub settled : IsSettled e.strategy.state
  pub indexed :
      has_value e.active_lighter_order_index ≡ has_value e.active_lighter_client_order_index
  pub backed : IsBacked e.active_lighter_order_index e.strategy.pending_maker e.last_maker_direction
  pub deferrable :
      IsDeferrable e.deferred_lighter_action e.active_lighter_order_index e.strategy.pending_maker

module _ {W : Type 0} ⦃d : Double W⦄ where
  place-LighterEngineInv :
      (env : Answers W) (e : LighterMakerTakerEngine W) (a : Action W)
      → LighterEngineInv e
      → a.type ≡ place_lighter_maker
      → e.active_lighter_order_index ≡ none
      → a.maker_order ≡ e.strategy.pending_maker
      → has_value e.strategy.pending_maker ≡ true
      → LighterEngineInv (execute_lighter_place env e a).engine
  unfolding execute_lighter_place
  place-LighterEngineInv env e a v is_place free same some_order = ground arith

  cancel-LighterEngineInv :
      (env : Answers W) (e : LighterMakerTakerEngine W) (a : Action W)
      → LighterEngineInv e
      → a.type ≡ cancel_lighter_maker
      → LighterEngineInv (execute_lighter_cancel env e a).engine
  unfolding execute_lighter_cancel reset
  cancel-LighterEngineInv env e a v is_cancel = ground arith

  -- What the strategy asks for, in an engine that satisfies the invariant.
  abbrev IsAsked : ActionType → LighterMakerTakerEngine W → Action W → Type 0
  IsAsked no_action e a = Unit
  IsAsked place_lighter_maker e a =
      (e.active_lighter_order_index ≡ none)
      × (a.maker_order ≡ e.strategy.pending_maker)
      × (has_value e.strategy.pending_maker ≡ true)
  IsAsked cancel_lighter_maker e a = Unit
  IsAsked _ e a = ⊥

  decided-LighterEngineInv :
      (e : LighterMakerTakerEngine W) (s : SpreadSnapshot W) (now : ℤ)
      → LighterEngineInv e
      → let (h, a) = on_market_snapshot e.strategy s now in
        LighterEngineInv (record e { strategy = h }) × IsAsked a.type (record e { strategy = h }) a
  unfolding on_market_snapshot
  decided-LighterEngineInv e s now v =
      ground (arith, on_market_snapshot-Inv e.strategy s now v.strategy_ok)

  asked-LighterEngineInv :
      (t : ActionType) (env : Answers W) (e : LighterMakerTakerEngine W) (a : Action W)
      (s : SpreadSnapshot W)
      → a.type ≡ t
      → LighterEngineInv e
      → IsAsked t e a
      → LighterEngineInv (execute_lighter_type t env e a s).engine
  unfolding execute_lighter_type
  asked-LighterEngineInv no_action env e a s f v k = v
  asked-LighterEngineInv place_lighter_maker env e a s f v (free, same, some_order) =
      place-LighterEngineInv env e a v f free same some_order
  asked-LighterEngineInv cancel_lighter_maker env e a s f v k = cancel-LighterEngineInv env e a v f
  asked-LighterEngineInv _ env e a s f v k = absurd k

  run_lighter_strategy-LighterEngineInv :
      (env : Answers W) (now : ℤ) (s : SpreadSnapshot W) (e : LighterMakerTakerEngine W)
      → LighterEngineInv e
      → LighterEngineInv (run_lighter_strategy env now s e).engine
  unfolding run_lighter_strategy execute_lighter_action
  run_lighter_strategy-LighterEngineInv env now s e v =
      let (h, a) = on_market_snapshot e.strategy s now in
      let (w, asked) = decided-LighterEngineInv e s now v in
      asked-LighterEngineInv a.type env (record e { strategy = h }) a s refl w asked

  deferred-LighterEngineInv :
      (env : Answers W) (e : LighterMakerTakerEngine W) (now : ℤ) (s : SpreadSnapshot W)
      → LighterEngineInv e
      → LighterEngineInv (execute_deferred_lighter_action env e now s).engine
  unfolding execute_deferred_lighter_action execute_lighter_action
  deferred-LighterEngineInv env e now s v = elim (Option-cases e.deferred_lighter_action) [
    | inl f ↦ ground arith
    | inr (a, f) ↦
        let due = record e { deferred_lighter_action = none; next_retry_steady_ms = none } in
        let w : LighterEngineInv due = record {
          strategy_ok = v.strategy_ok;
          settled = v.settled;
          indexed = v.indexed;
          backed = v.backed;
          deferrable = tt;
        } in
        let asked : IsAsked a.type due a = ground arith in
        ground (arith, asked-LighterEngineInv a.type env due a s refl w asked)
  ]

  on_lighter_fill-LighterEngineInv :
      (env : Answers W) (e : LighterMakerTakerEngine W) (fill : LighterFill W)
      (s : SpreadSnapshot W)
      → LighterEngineInv e
      → LighterEngineInv (on_lighter_fill env e fill s).engine
  unfolding on_lighter_fill execute_lighter_action execute_lighter_type execute_hl_hedge reset
  on_lighter_fill-LighterEngineInv env e fill s v = ground arith

  reject-LighterEngineInv :
      (env : Answers W) (e : LighterMakerTakerEngine W)
      → LighterEngineInv e
      → LighterEngineInv (engine_on_hl_hedge_reject env e).engine
  unfolding engine_on_hl_hedge_reject execute_lighter_action execute_lighter_type
  reject-LighterEngineInv env e v = ground arith

  unless_logged-LighterEngineInv :
      (logs : List (EventLog W)) (first : Outcome W (LighterMakerTakerEngine W))
      (rest : LighterMakerTakerEngine W → Outcome W (LighterMakerTakerEngine W))
      → LighterEngineInv first.engine
      → LighterEngineInv (rest first.engine).engine
      → LighterEngineInv (unless_logged logs first rest).engine
  unfolding unless_logged
  unless_logged-LighterEngineInv [] first rest v w = w
  unless_logged-LighterEngineInv (_ ∷ _) first rest v w = v

  handle-LighterEngineInv :
      (e : LighterMakerTakerEngine W) (v : LighterEvent W)
      → LighterEngineInv e
      → LighterEngineInv (handle_lighter e v).engine
  unfolding handle_lighter on_lighter_market_data
  handle-LighterEngineInv e (lighter_market_data env later now) w =
      let s = collect_snapshot e.config env in
      let first = execute_deferred_lighter_action env e now s in
      let due = deferred-LighterEngineInv env e now s w in
      unless_logged-LighterEngineInv first.logs first (run_lighter_strategy later now s) due
        (run_lighter_strategy-LighterEngineInv later now s first.engine due)
  handle-LighterEngineInv e (lighter_fill env fill s) w =
      on_lighter_fill-LighterEngineInv env e fill s w
  handle-LighterEngineInv e (hl_hedge_reject env) w = reject-LighterEngineInv env e w

  handle_all-LighterEngineInv :
      (e : LighterMakerTakerEngine W) (vs : List (LighterEvent W))
      → LighterEngineInv e
      → LighterEngineInv (handle_all_lighter e vs)
  unfolding handle_all_lighter
  handle_all-LighterEngineInv e [] w = w
  handle_all-LighterEngineInv e (v ∷ vs) w =
      handle_all-LighterEngineInv (handle_lighter e v).engine vs (handle-LighterEngineInv e v w)

  construct-LighterEngineInv :
      (c : EngineConfig W) {e : LighterMakerTakerEngine W}
      → construct_lighter_engine c ≡ created e
      → LighterEngineInv e
  unfolding construct_lighter_engine construct
  construct-LighterEngineInv c f = ground arith

  -- After any events on a newly constructed engine, with any answers of the venues: the strategy
  -- satisfies its invariant and no fill is left waiting for its hedge; an active order is the one that
  -- the strategy waits for, on the side that an unwind would reverse; and a deferred placement is the
  -- strategy's order with none active.
  pub lighter_engine_run-Inv :
      (c : EngineConfig W) (vs : List (LighterEvent W)) {e : LighterMakerTakerEngine W}
      → construct_lighter_engine c ≡ created e
      → LighterEngineInv (handle_all_lighter e vs)
  lighter_engine_run-Inv c vs f = handle_all-LighterEngineInv _ vs (construct-LighterEngineInv c f)
