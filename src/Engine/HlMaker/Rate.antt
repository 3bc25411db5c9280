-- ===== src/Engine/HlMaker/Rate.antt =====
-- How often MakerHedgeEngine places a maker order.
use hl_maker_lighter_arb_cpp.Common.{
  ℕ, suc, ◌+◌, ◌*◌, ◌≡◌, refl, none, some, Option-cases, Bool-cases, inl, inr, List, [], ◌∷◌, ◌++◌,
  arith,
}
use hl_maker_lighter_arb_cpp.Common.Int.{ℤ, pos, ◌+ℤ◌, ◌-ℤ◌, ◌≤ℤ◌, int_laws}
use hl_maker_lighter_arb_cpp.Double.{Double}
use hl_maker_lighter_arb_cpp.Types.{
  ActionType, place_hl_maker, cancel_hl_maker, send_lighter_taker_hedge, unwind_hl_position, Action,
  SpreadSnapshot, TradeEvent,
}
use hl_maker_lighter_arb_cpp.Strategy.HlMaker.Defs.{on_market_snapshot, on_lighter_hedge_reject}
use hl_maker_lighter_arb_cpp.Exchange.{Answers, Sent, hl_limit}
use hl_maker_lighter_arb_cpp.Engine.Outcome.{Outcome, EventLog, collect_snapshot, unless_logged}
use hl_maker_lighter_arb_cpp.Engine.HlMaker.State.{
  reset_strategy, MakerHedgeEngine, hl_place_retry_at_ms, set_hl_position,
}
use hl_maker_lighter_arb_cpp.Engine.HlMaker.Execute.{
  execute_action, execute_type, execute_place, execute_cancel, execute_hedge, execute_unwind,
}
use hl_maker_lighter_arb_cpp.Engine.HlMaker.Fill.{HlFill, on_hl_fill}
use hl_maker_lighter_arb_cpp.Engine.HlMaker.MarketData.{
  on_market_data, run_strategy, is_blocked, too_early, execute_deferred_hl_action,
  engine_on_lighter_hedge_reject, engine_on_lighter_hedge_fill,
}
use hl_maker_lighter_arb_cpp.Engine.HlMaker.TradeEvent.{on_trade_event}
use hl_maker_lighter_arb_cpp.Engine.HlMaker.Trace.{
  Event, market_data, hl_fill, trade_event, lighter_reject, lighter_fill, sync_position, handle,
  handle_all, all_sent,
}

-- The maker orders among the calls.
abbrev pub placements : {W : Type 0} → List (Sent W) → ℕ
placements [] = 0
placements (hl_limit r ∷ cs) = suc (placements cs)
placements (_ ∷ cs) = placements cs

pub placements-append :
    {W : Type 0} (xs ys : List (Sent W)) → placements (xs ++ ys) ≡ placements xs + placements ys
placements-append [] ys = omega arith
placements-append (hl_limit r ∷ xs) ys = omega (arith, placements-append xs ys)
placements-append (_ ∷ xs) ys = placements-append xs ys

-- From one engine to another: as many maker orders as were placed took `i` milliseconds each.
record Paced {W : Type 0} (i : ℕ) (last : ℤ) (e' : MakerHedgeEngine W) (sent : List (Sent W))
    : Type 0 where
  interval : e'.config.hl_order_interval_ms ≡ pos i
  pace : last +ℤ pos (placements sent * i) ≤ℤ e'.last_hl_place_ms

module _ {W : Type 0} (i : ℕ) where
  -- What places nothing and leaves the interval and the time of the last placement alone.
  Paced-of_none :
      (e e' : MakerHedgeEngine W) (sent : List (Sent W))
      → e.config.hl_order_interval_ms ≡ pos i
      → (e'.config ≡ e.config) × (e'.last_hl_place_ms ≡ e.last_hl_place_ms) × (placements sent ≡ 0)
      → Paced i e.last_hl_place_ms e' sent
  Paced-of_none e e' sent h (same, last, nothing) = record {
    interval = ground arith;
    pace = rw (last, nothing) (omega int_laws);
  }

  Paced-append :
      (last : ℤ) (e' e'' : MakerHedgeEngine W) (xs ys : List (Sent W))
      → Paced i last e' xs
      → Paced i e'.last_hl_place_ms e'' ys
      → Paced i last e'' (xs ++ ys)
  Paced-append last e' e'' xs ys p q = record {
    interval = q.interval;
    pace = rw (placements-append xs ys) (omega (int_laws, p.pace, q.pace));
  }

module _ {W : Type 0} ⦃d : Double W⦄ (i : ℕ) where
  execute_place-Paced :
      (env : Answers W) (e : MakerHedgeEngine W) (a : Action W) (s : SpreadSnapshot W)
      → e.config.hl_order_interval_ms ≡ pos i
      → let o = execute_place env e a s in Paced i e.last_hl_place_ms o.engine o.sent
  unfolding execute_place hl_place_retry_at_ms ◌+ℤ◌ ◌-ℤ◌
  execute_place-Paced env e a s h = ground arith

  execute_cancel-Paced :
      (env : Answers W) (e : MakerHedgeEngine W) (a : Action W) (s : SpreadSnapshot W)
      → e.config.hl_order_interval_ms ≡ pos i
      → let o = execute_cancel env e a s in Paced i e.last_hl_place_ms o.engine o.sent
  unfolding execute_cancel
  execute_cancel-Paced env e a s h =
      Paced-of_none i e _ (execute_cancel env e a s).sent h
        (ground arith, ground arith, ground arith)

  execute_hedge-Paced :
      (env : Answers W) (e : MakerHedgeEngine W) (a : Action W) (s : SpreadSnapshot W)
      → e.config.hl_order_interval_ms ≡ pos i
      → let o = execute_hedge env e a s in Paced i e.last_hl_place_ms o.engine o.sent
  unfolding execute_hedge
  execute_hedge-Paced env e a s h =
      Paced-of_none i e _ (execute_hedge env e a s).sent h
        (ground arith, ground arith, ground arith)

  Paced-quiet :
      (e : MakerHedgeEngine W)
      → e.config.hl_order_interval_ms ≡ pos i
      → Paced i e.last_hl_place_ms e []
  Paced-quiet e h = Paced-of_none i e e [] h (refl, refl, refl)

  execute_type-Paced :
      (t : ActionType) (env : Answers W) (e : MakerHedgeEngine W) (a : Action W)
      (s : SpreadSnapshot W)
      → e.config.hl_order_interval_ms ≡ pos i
      → let o = execute_type t env e a s in Paced i e.last_hl_place_ms o.engine o.sent
  unfolding execute_type execute_unwind
  execute_type-Paced place_hl_maker env e a s h = execute_place-Paced env e a s h
  execute_type-Paced cancel_hl_maker env e a s h = execute_cancel-Paced env e a s h
  execute_type-Paced send_lighter_taker_hedge env e a s h = execute_hedge-Paced env e a s h
  execute_type-Paced unwind_hl_position env e a s h =
      Paced-of_none i e e (execute_unwind env e).sent h (refl, refl, refl)
  execute_type-Paced _ env e a s h = Paced-quiet e h

  execute_action-Paced :
      (env : Answers W) (e : MakerHedgeEngine W) (a : Action W) (s : SpreadSnapshot W)
      → e.config.hl_order_interval_ms ≡ pos i
      → let o = execute_action env e a s in Paced i e.last_hl_place_ms o.engine o.sent
  unfolding execute_action
  execute_action-Paced env e a s h = execute_type-Paced a.type env e a s h

  on_hl_fill-Paced :
      (env : Answers W) (e : MakerHedgeEngine W) (fill : HlFill W) (s : SpreadSnapshot W)
      → e.config.hl_order_interval_ms ≡ pos i
      → let o = on_hl_fill env e fill s in Paced i e.last_hl_place_ms o.engine o.sent
  unfolding on_hl_fill
  on_hl_fill-Paced env e fill s h =
      Paced-of_none i e _ (on_hl_fill env e fill s).sent h
        (ground arith, ground arith, ground arith)

  on_trade_event-Paced :
      (env : Answers W) (e : MakerHedgeEngine W) (trade : TradeEvent W)
      → e.config.hl_order_interval_ms ≡ pos i
      → let o = on_trade_event env e trade in Paced i e.last_hl_place_ms o.engine o.sent
  unfolding on_trade_event
  on_trade_event-Paced env e trade h =
      Paced-of_none i e _ (on_trade_event env e trade).sent h
        (ground arith, ground arith, ground arith)

  run_strategy-Paced :
      (env : Answers W) (now : ℤ) (s : SpreadSnapshot W) (e : MakerHedgeEngine W)
      → e.config.hl_order_interval_ms ≡ pos i
      → let o = run_strategy env now s e in Paced i e.last_hl_place_ms o.engine o.sent
  unfolding run_strategy reset_strategy
  run_strategy-Paced env now s e h =
      let (after, action) = on_market_snapshot e.strategy s now e.hl_position_base in
      elim (Bool-cases (is_blocked e s action)) [
        | inl blocked ↦ rw blocked (Paced-quiet (reset_strategy (record e { strategy = after })) h)
        | inr free ↦ rw free (execute_action-Paced env (record e { strategy = after }) action s h)
      ]

  deferred-Paced :
      (env : Answers W) (e : MakerHedgeEngine W) (now : ℤ) (s : SpreadSnapshot W)
      → e.config.hl_order_interval_ms ≡ pos i
      → let o = execute_deferred_hl_action env e now s in Paced i e.last_hl_place_ms o.engine o.sent
  unfolding execute_deferred_hl_action
  deferred-Paced env e now s h = elim (Option-cases e.deferred_hl_action) [
    | inl f ↦ rw f (Paced-quiet (record e { deferred_hl_action = none }) h)
    | inr (a, f) ↦ rw f (elim (Bool-cases (too_early e.next_retry_steady_ms now)) [
      | inl early ↦ rw early (Paced-quiet (record e { deferred_hl_action = some a }) h)
      | inr due ↦ rw due (
          execute_action-Paced env
            (record e { deferred_hl_action = none; next_retry_steady_ms = none }) a s h)
    ])
  ]

  unless_logged-Paced :
      (last : ℤ) (logs : List (EventLog W)) (first : Outcome W (MakerHedgeEngine W))
      (rest : MakerHedgeEngine W → Outcome W (MakerHedgeEngine W))
      → Paced i last first.engine first.sent
      → Paced i first.engine.last_hl_place_ms (rest first.engine).engine (rest first.engine).sent
      → let o = unless_logged logs first rest in Paced i last o.engine o.sent
  unfolding unless_logged
  unless_logged-Paced last [] first rest p q =
      Paced-append i last first.engine (rest first.engine).engine first.sent _ p q
  unless_logged-Paced last (_ ∷ _) first rest p q = p

  on_market_data-Paced :
      (env later : Answers W) (e : MakerHedgeEngine W) (now : ℤ)
      → e.config.hl_order_interval_ms ≡ pos i
      → let o = on_market_data env later e now in Paced i e.last_hl_place_ms o.engine o.sent
  unfolding on_market_data
  on_market_data-Paced env later e now h =
      let s = collect_snapshot e.config env in
      let first = execute_deferred_hl_action env e now s in
      let p = deferred-Paced env e now s h in
      unless_logged-Paced e.last_hl_place_ms first.logs first (run_strategy later now s) p
        (run_strategy-Paced later now s first.engine p.interval)

  handle-Paced :
      (e : MakerHedgeEngine W) (v : Event W)
      → e.config.hl_order_interval_ms ≡ pos i
      → let o = handle e v in Paced i e.last_hl_place_ms o.engine o.sent
  unfolding handle engine_on_lighter_hedge_reject engine_on_lighter_hedge_fill set_hl_position
  handle-Paced e (market_data env later now) h = on_market_data-Paced env later e now h
  handle-Paced e (hl_fill env fill s) h = on_hl_fill-Paced env e fill s h
  handle-Paced e (trade_event env trade) h = on_trade_event-Paced env e trade h
  handle-Paced e (lighter_reject env) h =
      let (rejected, action) = on_lighter_hedge_reject e.strategy in
      execute_action-Paced env (record e { strategy = rejected }) action
        (collect_snapshot e.config env) h
  handle-Paced e (lighter_fill px) h = Paced-quiet (engine_on_lighter_hedge_fill e px) h
  handle-Paced e (sync_position base) h = Paced-quiet (set_hl_position e base) h

  handle_all-Paced :
      (e : MakerHedgeEngine W) (vs : List (Event W))
      → e.config.hl_order_interval_ms ≡ pos i
      → Paced i e.last_hl_place_ms (handle_all e vs) (all_sent e vs)
  unfolding handle_all all_sent
  handle_all-Paced e [] h = Paced-quiet e h
  handle_all-Paced e (v ∷ vs) h =
      let o = handle e v in
      let p = handle-Paced e v h in
      Paced-append i e.last_hl_place_ms o.engine (handle_all o.engine vs) o.sent _ p
        (handle_all-Paced o.engine vs p.interval)

  -- The rate limit over any run: if the configured interval is `i` milliseconds and `n` maker orders
  -- are sent to Hyperliquid, by deferred actions or not, the recorded time of the last placement has
  -- moved on by at least `n` times `i`.
  pub placement_rate :
      (e : MakerHedgeEngine W) (vs : List (Event W))
      → e.config.hl_order_interval_ms ≡ pos i
      → e.last_hl_place_ms +ℤ pos (placements (all_sent e vs) * i)
        ≤ℤ (handle_all e vs).last_hl_place_ms
  placement_rate e vs h = (handle_all-Paced e vs h).pace
