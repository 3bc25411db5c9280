-- ===== src/Engine/LighterMaker/Execute.antt =====
-- `LighterMakerTakerEngine::execute_action`, a function for each of its cases.
use hl_maker_lighter_arb_cpp.Common.{
  Bool, true, false, not, ◌&&◌, Option, none, some, [], ◌∷◌, if◌then◌else◌,
}
use hl_maker_lighter_arb_cpp.Common.Int.{ℤ, pos}
use hl_maker_lighter_arb_cpp.Common.Text.{to_string}
use hl_maker_lighter_arb_cpp.Double.{Double, lit, ◌<ᵈ◌}
use hl_maker_lighter_arb_cpp.Types.{
  long_lighter_short_hl, eq_direction, ActionType, place_lighter_maker, cancel_lighter_maker,
  send_hl_taker_hedge, unwind_lighter_position, Action, PendingMakerOrder, OpenHedgePosition,
  HlHedgeIntent, SpreadSnapshot, mid,
}
use hl_maker_lighter_arb_cpp.Strategy.LighterMaker.Defs.{on_hl_hedge_fill}
use hl_maker_lighter_arb_cpp.Exchange.{
  Answers, HlIocOrderRequest, HlIocOrderAck, LighterLimitOrderRequest, LighterLimitOrderAck,
  LighterIocRequest, hl_ioc, lighter_limit, lighter_cancel, lighter_ioc,
}
use hl_maker_lighter_arb_cpp.Engine.Outcome.{
  Outcome, JournalEntry, quiet, slipped, placed_lighter_maker, lighter_placement_failed,
  cancel_without_lighter_order, cancelled_lighter_maker, lighter_cancel_failed, perf_lighter_cancel,
  hl_hedge_complete, perf_lighter_trade, hl_hedge_failed, lighter_unwind, unwound_naked_lighter,
  lighter_unwind_failed,
}
use hl_maker_lighter_arb_cpp.Engine.LighterMaker.State.{
  LighterMakerTakerEngine, retire_lighter, lighter_place_retry_at_ms, lighter_cancel_retry_at_ms,
  defer_lighter,
}

-- `value_or(0)`
abbrev index_or_zero : Option ℤ → ℤ
index_or_zero none = pos 0
index_or_zero (some index) = index

module _ {W : Type 0} ⦃d : Double W⦄ where
  abbrev pub lighter_place_request :
      LighterMakerTakerEngine W → PendingMakerOrder W → LighterLimitOrderRequest W
  lighter_place_request e order = record {
    is_ask = not order.is_buy;
    price = order.price;
    size = order.size_base;
    post_only = true;
    dry_run = e.config.dry_run;
  }

  -- `PlaceLighterMaker` from the answer of `place_limit_order` on.
  unfoldable pub after_lighter_place :
      LighterMakerTakerEngine W
      → PendingMakerOrder W
      → LighterLimitOrderAck
      → Outcome W (LighterMakerTakerEngine W)
  after_lighter_place e order ack =
      if ack.ok && ack.resting_confirmed
      then record {
        engine = record e {
          active_lighter_order_index = some ack.order_index;
          active_lighter_client_order_index = some ack.client_order_index;
          last_maker_direction = order.direction;
        };
        sent = lighter_limit (lighter_place_request e order) ∷ [];
        logs = placed_lighter_maker ack.order_index ∷ [];
        journal = [];
      }
      else record {
        engine = e;
        sent = lighter_limit (lighter_place_request e order) ∷ [];
        logs = lighter_placement_failed ack.message ∷ [];
        journal = [];
      }

  -- `PlaceLighterMaker`. It reads `maker_order` unchecked; an action without one never reaches it.
  unfoldable pub execute_lighter_place :
      Answers W → LighterMakerTakerEngine W → Action W → Outcome W (LighterMakerTakerEngine W)
  unfolding after_lighter_place defer_lighter
  execute_lighter_place env e action = elim (lighter_place_retry_at_ms e env.steady_now_ms) [
    | some retry_at ↦ quiet (defer_lighter e action retry_at)
    | none ↦
        let ready = record e {
          last_lighter_place_ms = env.steady_now_ms;
          next_retry_steady_ms = none;
          deferred_lighter_action = none;
        } in
        elim action.maker_order [
          | none ↦ quiet ready
          | some order ↦
              after_lighter_place ready order
                (env.lighter_place_limit_order (lighter_place_request ready order))
        ]
  ]

  -- `CancelLighterMaker` past its rate limit.
  unfoldable pub send_lighter_cancel :
      Answers W → LighterMakerTakerEngine W → Outcome W (LighterMakerTakerEngine W)
  unfolding retire_lighter
  send_lighter_cancel env e = elim e.active_lighter_order_index [
    | none ↦ record {
      engine = e;
      sent = [];
      logs = cancel_without_lighter_order ∷ [];
      journal = [];
    }
    | some index ↦
        let ack = env.lighter_cancel_order index e.config.dry_run in
        record {
          engine = if ack.ok then retire_lighter e else e;
          sent = lighter_cancel index e.config.dry_run ∷ [];
          logs =
              (if ack.ok
                then cancelled_lighter_maker ack.order_index
                else lighter_cancel_failed ack.message)
              ∷ perf_lighter_cancel index
              ∷ [];
          journal = [];
        }
  ]

  unfoldable pub execute_lighter_cancel :
      Answers W → LighterMakerTakerEngine W → Action W → Outcome W (LighterMakerTakerEngine W)
  unfolding send_lighter_cancel defer_lighter
  execute_lighter_cancel env e action = elim (lighter_cancel_retry_at_ms e env.steady_now_ms) [
    | some retry_at ↦ quiet (defer_lighter e action retry_at)
    | none ↦ send_lighter_cancel env (record e {
      last_lighter_cancel_ms = env.steady_now_ms;
      next_retry_steady_ms = none;
      deferred_lighter_action = none;
    })
  ]

  -- `SendHlTakerHedge`: the order of the hedge,
  abbrev pub hl_hedge_request : LighterMakerTakerEngine W → HlHedgeIntent W → HlIocOrderRequest W
  hl_hedge_request e intent = record {
    coin = e.config.hl_coin;
    is_buy = intent.is_buy;
    price = intent.limit_price;
    size = intent.size_base;
    dry_run = e.config.dry_run;
  }

  -- and an order that closes a position on Lighter.
  abbrev pub lighter_unwind_request :
      LighterMakerTakerEngine W → SpreadSnapshot W → Bool → W → LighterIocRequest W
  lighter_unwind_request e snapshot is_ask size = record {
    is_ask = is_ask;
    price = slipped is_ask (mid snapshot.lighter) 15;
    size = size;
    signal_price = mid snapshot.lighter;
    dry_run = e.config.dry_run;
  }

  -- The Lighter price and size of the position, or what stands for them without one.
  abbrev lighter_leg : Option (OpenHedgePosition W) → HlHedgeIntent W → W × W
  lighter_leg none intent = (lit 0 0, intent.size_base)
  lighter_leg (some p) intent = (p.lighter_fill_price, p.size_base)

  abbrev hl_hedge_entry :
      LighterMakerTakerEngine W
      → HlHedgeIntent W
      → HlIocOrderAck W
      → W × W
      → SpreadSnapshot W
      → JournalEntry W
  hl_hedge_entry e intent ack (lt_px, size) snapshot = record {
    type = "T";
    hedge_status = "filled";
    hl_side = if intent.is_buy then "B" else "S";
    hl_px = ack.avg_fill_price;
    hl_sz = ack.filled_size;
    hl_fee = lit 0 0;
    lt_fill_px = lt_px;
    lt_sz = size;
    lt_fee = lit 0 0;
    spread_bps = snapshot.cross_spread_bps;
    hl_oid = "hl_ioc";
    lt_tx = to_string (index_or_zero e.active_lighter_order_index);
    unwind_fill_px = lit 0 0;
    unwind_fill_sz = lit 0 0;
    failure_reason = "";
  }

  unfoldable pub execute_hl_hedge :
      Answers W
      → LighterMakerTakerEngine W
      → Action W
      → SpreadSnapshot W
      → Outcome W (LighterMakerTakerEngine W)
  unfolding retire_lighter on_hl_hedge_fill
  execute_hl_hedge env e action snapshot = elim action.hl_hedge_intent [
    | none ↦ quiet e
    | some intent ↦
        let ack = env.hl_place_ioc_order (hl_hedge_request e intent) in
        let filled = on_hl_hedge_fill e.strategy ack.avg_fill_price in
        let leg = lighter_leg filled.open_position intent in
        let unwind =
          lighter_unwind_request e snapshot
            (eq_direction e.last_maker_direction long_lighter_short_hl) intent.size_base in
        let unwind_ack = env.lighter_place_ioc_order unwind in
        if ack.ok && (lit 0 0 <ᵈ ack.filled_size)
        then record {
          engine = retire_lighter (record e { strategy = filled });
          sent = hl_ioc (hl_hedge_request e intent) ∷ [];
          logs =
              hl_hedge_complete (leg.0) (leg.1) ack.avg_fill_price ack.filled_size
                snapshot.cross_spread_bps
              ∷ perf_lighter_trade (index_or_zero e.active_lighter_order_index)
              ∷ [];
          journal = hl_hedge_entry e intent ack leg snapshot ∷ [];
        }
        else record {
          engine = retire_lighter e;
          sent = hl_ioc (hl_hedge_request e intent) ∷ lighter_ioc unwind ∷ [];
          logs = hl_hedge_failed ack.message ∷ lighter_unwind unwind_ack.ok unwind_ack.tx_hash ∷ [];
          journal = [];
        }
  ]

  -- `UnwindLighterPosition`, with or without an open position.
  abbrev lighter_side : Option (OpenHedgePosition W) → Bool × W
  lighter_side none = (false, lit 0 0)
  lighter_side (some p) = (eq_direction p.direction long_lighter_short_hl, p.size_base)

  unfoldable pub execute_lighter_unwind :
      Answers W
      → LighterMakerTakerEngine W
      → SpreadSnapshot W
      → Outcome W (LighterMakerTakerEngine W)
  execute_lighter_unwind env e snapshot =
      let (is_ask, size) = lighter_side e.strategy.open_position in
      let request = lighter_unwind_request e snapshot is_ask size in
      let ack = env.lighter_place_ioc_order request in
      record {
        engine = e;
        sent = lighter_ioc request ∷ [];
        logs = (if ack.ok then unwound_naked_lighter else lighter_unwind_failed ack.message) ∷ [];
        journal = [];
      }

  -- The `switch` of `execute_action`.
  unfoldable pub execute_lighter_type :
      ActionType
      → Answers W
      → LighterMakerTakerEngine W
      → Action W
      → SpreadSnapshot W
      → Outcome W (LighterMakerTakerEngine W)
  execute_lighter_type place_lighter_maker env e action snapshot =
      execute_lighter_place env e action
  execute_lighter_type cancel_lighter_maker env e action snapshot =
      execute_lighter_cancel env e action
  execute_lighter_type send_hl_taker_hedge env e action snapshot =
      execute_hl_hedge env e action snapshot
  execute_lighter_type unwind_lighter_position env e action snapshot =
      execute_lighter_unwind env e snapshot
  execute_lighter_type _ env e action snapshot = quiet e

  unfoldable pub execute_lighter_action :
      Answers W
      → LighterMakerTakerEngine W
      → Action W
      → SpreadSnapshot W
      → Outcome W (LighterMakerTakerEngine W)
  unfolding execute_lighter_type
  execute_lighter_action env e action snapshot =
      execute_lighter_type action.type env e action snapshot
