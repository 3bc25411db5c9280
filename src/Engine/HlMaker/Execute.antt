-- ===== src/Engine/HlMaker/Execute.antt =====
-- `MakerHedgeEngine::execute_action`, a function for each of its cases.
use Prim.Native.String.{String}
use hl_maker_lighter_arb_cpp.Common.{
  Bool, true, false, not, ◌&&◌, Option, none, some, [], ◌∷◌, ◌++◌, if◌then◌else◌,
}
use hl_maker_lighter_arb_cpp.Double.{Double, lit}
use hl_maker_lighter_arb_cpp.Types.{
  short_lighter_long_hl, long_lighter_short_hl, eq_direction, ActionType, place_hl_maker,
  cancel_hl_maker, send_lighter_taker_hedge, unwind_hl_position, Action, PendingMakerOrder,
  OpenHedgePosition, HedgeIntent, SpreadSnapshot, mid,
}
use hl_maker_lighter_arb_cpp.Strategy.HlMaker.Defs.{
  reset, on_lighter_hedge_fill, on_lighter_hedge_reject,
}
use hl_maker_lighter_arb_cpp.Exchange.{
  Answers, HlLimitOrderRequest, HlLimitOrderAck, LighterIocRequest, hl_limit, hl_cancel, hl_reduce,
  lighter_ioc,
}
use hl_maker_lighter_arb_cpp.Engine.Outcome.{
  Outcome, quiet, slipped, placed_hl_maker, hl_placement_failed, cancel_without_oid,
  cancelled_hl_maker, hl_cancel_failed, perf_cancel, speculative_cancel_unwind,
  cancel_failed_keeping_oid, lighter_hedge_confirmed, lighter_hedge_not_confirmed, unwound_naked_hl,
  hl_unwind_failed,
}
use hl_maker_lighter_arb_cpp.Engine.HlMaker.State.{
  MakerHedgeEngine, limit_blocks, reset_strategy, clear_speculative, hl_place_retry_at_ms,
  hl_cancel_retry_at_ms, defer,
}

module _ {W : Type 0} ⦃d : Double W⦄ where
  abbrev pub place_request : MakerHedgeEngine W → PendingMakerOrder W → HlLimitOrderRequest W
  place_request e order = record {
    coin = e.config.hl_coin;
    is_buy = order.is_buy;
    price = order.price;
    size = order.size_base;
    post_only = true;
    dry_run = e.config.dry_run;
  }

  -- `PlaceHlMaker` from the answer of `place_limit_order` on.
  unfoldable pub after_place :
      Answers W
      → MakerHedgeEngine W
      → PendingMakerOrder W
      → HlLimitOrderAck
      → Outcome W (MakerHedgeEngine W)
  unfolding clear_speculative
  after_place env e order ack =
      if ack.ok
      then record {
        engine = clear_speculative (record e {
          active_hl_oid = some ack.oid;
          recently_placed_oids = ack.oid ∷ [];
          last_maker_direction = order.direction;
          maker_order_placed_epoch_ms = env.epoch_now_ms;
        });
        sent = hl_limit (place_request e order) ∷ [];
        logs = placed_hl_maker ack.oid ∷ [];
        journal = [];
      }
      else record {
        engine = e;
        sent = hl_limit (place_request e order) ∷ [];
        logs = hl_placement_failed ack.message ∷ [];
        journal = [];
      }

  -- `PlaceHlMaker`. It reads `maker_order` unchecked; an action without one never reaches it.
  unfoldable pub execute_place :
      Answers W → MakerHedgeEngine W → Action W → SpreadSnapshot W → Outcome W (MakerHedgeEngine W)
  unfolding after_place reset_strategy defer
  execute_place env e action snapshot = elim action.maker_order [
    | none ↦ quiet e
    | some order ↦
        if limit_blocks e order snapshot
        then quiet (reset_strategy e)
        else elim (hl_place_retry_at_ms e env.steady_now_ms) [
          | some retry_at ↦ quiet (defer e action retry_at)
          | none ↦
              let ready = record e {
                last_hl_place_ms = env.steady_now_ms;
                next_retry_steady_ms = none;
                deferred_hl_action = none;
              } in
              after_place env ready order (env.hl_place_limit_order (place_request ready order))
        ]
  ]

  -- Selling back a speculative hedge: the other side, at the same size.
  abbrev pub unwind_request : MakerHedgeEngine W → SpreadSnapshot W → W → LighterIocRequest W
  unwind_request e snapshot size =
      let is_ask = not (eq_direction e.last_maker_direction short_lighter_long_hl) in
      record {
        is_ask = is_ask;
        price = slipped is_ask (mid snapshot.lighter) 15;
        size = size;
        signal_price = mid snapshot.lighter;
        dry_run = e.config.dry_run;
      }

  -- `CancelHlMaker` after a successful cancel.
  unfoldable pub after_cancel :
      Answers W
      → MakerHedgeEngine W
      → String
      → String
      → SpreadSnapshot W
      → Outcome W (MakerHedgeEngine W)
  unfolding reset_strategy clear_speculative
  after_cancel env e oid acked_oid snapshot =
      let cleared = reset_strategy (clear_speculative (record e { active_hl_oid = none })) in
      let request = unwind_request e snapshot e.speculative_hedge_size in
      let cancel = hl_cancel e.config.hl_coin oid e.config.dry_run in
      let ack = env.lighter_place_ioc_order request in
      if e.speculative_hedge_sent
      then record {
        engine = cleared;
        sent = cancel ∷ lighter_ioc request ∷ [];
        logs =
            cancelled_hl_maker acked_oid
            ∷ perf_cancel oid
            ∷ speculative_cancel_unwind e.speculative_hedge_size ack.ok ack.message
            ∷ [];
        journal = [];
      }
      else record {
        engine = cleared;
        sent = cancel ∷ [];
        logs = cancelled_hl_maker acked_oid ∷ perf_cancel oid ∷ [];
        journal = [];
      }

  -- `CancelHlMaker` past its rate limit.
  unfoldable pub send_cancel :
      Answers W → MakerHedgeEngine W → SpreadSnapshot W → Outcome W (MakerHedgeEngine W)
  unfolding after_cancel
  send_cancel env e snapshot = elim e.active_hl_oid [
    | none ↦ record { engine = e; sent = []; logs = cancel_without_oid ∷ []; journal = [] }
    | some oid ↦
        let ack = env.hl_cancel_order e.config.hl_coin oid e.config.dry_run in
        if ack.ok then after_cancel env e oid ack.oid snapshot else record {
          engine = e;
          sent = hl_cancel e.config.hl_coin oid e.config.dry_run ∷ [];
          logs = hl_cancel_failed ack.message ∷ perf_cancel oid ∷ cancel_failed_keeping_oid ∷ [];
          journal = [];
        }
  ]

  unfoldable pub execute_cancel :
      Answers W → MakerHedgeEngine W → Action W → SpreadSnapshot W → Outcome W (MakerHedgeEngine W)
  unfolding send_cancel defer
  execute_cancel env e action snapshot = elim (hl_cancel_retry_at_ms e env.steady_now_ms) [
    | some retry_at ↦ quiet (defer e action retry_at)
    | none ↦
        send_cancel env
          (record e {
            last_hl_cancel_ms = env.steady_now_ms;
            next_retry_steady_ms = none;
            deferred_hl_action = none;
          })
          snapshot
  ]

  -- `SendLighterTakerHedge`: the request of its order.
  abbrev pub hedge_request : MakerHedgeEngine W → HedgeIntent W → LighterIocRequest W
  hedge_request e intent = record {
    is_ask = intent.is_ask;
    price = intent.limit_price;
    size = intent.size_base;
    signal_price = intent.limit_price;
    dry_run = e.config.dry_run;
  }

  -- `UnwindHlPosition`: what it asks of Hyperliquid, with or without an open position.
  abbrev pub unwind_side : Option (OpenHedgePosition W) → Bool
  unwind_side none = false
  unwind_side (some p) = eq_direction p.direction long_lighter_short_hl

  abbrev pub unwind_size : Option (OpenHedgePosition W) → W
  unwind_size none = lit 0 0
  unwind_size (some p) = p.size_base

  unfoldable pub execute_unwind : Answers W → MakerHedgeEngine W → Outcome W (MakerHedgeEngine W)
  execute_unwind env e =
      let is_buy = unwind_side e.strategy.open_position in
      let size = unwind_size e.strategy.open_position in
      let ack = env.hl_reduce_position e.config.hl_coin is_buy size e.config.dry_run in
      record {
        engine = e;
        sent = hl_reduce e.config.hl_coin is_buy size e.config.dry_run ∷ [];
        logs = (if ack.ok then unwound_naked_hl else hl_unwind_failed ack.message) ∷ [];
        journal = [];
      }

  -- The call of `execute_action` on what `on_lighter_hedge_reject` returns: no action, or an unwind.
  unfoldable pub execute_reject :
      Answers W → MakerHedgeEngine W → ActionType → Outcome W (MakerHedgeEngine W)
  unfolding execute_unwind
  execute_reject env e unwind_hl_position = execute_unwind env e
  execute_reject env e _ = quiet e

  abbrev fill_prices : Option (OpenHedgePosition W) → W × W
  fill_prices none = (lit 0 0, lit 0 0)
  fill_prices (some p) = (p.hl_fill_price, p.lighter_fill_price)

  unfoldable pub execute_hedge :
      Answers W → MakerHedgeEngine W → Action W → SpreadSnapshot W → Outcome W (MakerHedgeEngine W)
  unfolding execute_reject on_lighter_hedge_fill on_lighter_hedge_reject reset
  execute_hedge env e action snapshot = elim action.hedge_intent [
    | none ↦ quiet e
    | some intent ↦
        let ack = env.lighter_place_ioc_order (hedge_request e intent) in
        let timed = record e { last_lighter_api_ms = env.steady_now_ms } in
        let (rejected, reject) = on_lighter_hedge_reject e.strategy in
        let unwound = execute_reject env (record timed { strategy = rejected }) reject.type in
        if ack.ok && ack.fill_confirmed
        then record {
          engine = record timed {
            strategy = reset (on_lighter_hedge_fill e.strategy intent.limit_price);
          };
          sent = lighter_ioc (hedge_request e intent) ∷ [];
          logs =
              (let (hl_px, lt_px) =
                  fill_prices (on_lighter_hedge_fill e.strategy intent.limit_price).open_position in
                lighter_hedge_confirmed ack.tx_hash ack.confirmed_size hl_px lt_px
                  snapshot.cross_spread_bps)
              ∷ [];
          journal = [];
        }
        else record {
          engine = unwound.engine;
          sent = lighter_ioc (hedge_request e intent) ∷ unwound.sent;
          logs =
              unwound.logs
              ++ (lighter_hedge_not_confirmed ack.ok ack.message snapshot.cross_spread_bps ∷ []);
          journal = [];
        }
  ]

  -- The `switch` of `execute_action`.
  unfoldable pub execute_type :
      ActionType
      → Answers W
      → MakerHedgeEngine W
      → Action W
      → SpreadSnapshot W
      → Outcome W (MakerHedgeEngine W)
  execute_type place_hl_maker env e action snapshot = execute_place env e action snapshot
  execute_type cancel_hl_maker env e action snapshot = execute_cancel env e action snapshot
  execute_type send_lighter_taker_hedge env e action snapshot = execute_hedge env e action snapshot
  execute_type unwind_hl_position env e action snapshot = execute_unwind env e
  execute_type _ env e action snapshot = quiet e

  unfoldable pub execute_action :
      Answers W → MakerHedgeEngine W → Action W → SpreadSnapshot W → Outcome W (MakerHedgeEngine W)
  unfolding execute_type
  execute_action env e action snapshot = execute_type action.type env e action snapshot
