-- ===== src/Examples/Venues.antt =====
-- An engine, the venues and the events of the examples of MakerHedgeEngine.
use hl_maker_lighter_arb_cpp.Common.{ℕ, ◌+◌, Bool, true, false, none, some, List, [], ◌∷◌}
use hl_maker_lighter_arb_cpp.Common.Int.{pos}
use hl_maker_lighter_arb_cpp.Double.Fixed.{Fixed, fixed_double}
use hl_maker_lighter_arb_cpp.Types.{
  Bbo, short_lighter_long_hl, place_hl_maker, Action, TradeEvent, no_op,
}
use hl_maker_lighter_arb_cpp.Exchange.{Answers}
use hl_maker_lighter_arb_cpp.Engine.Outcome.{EngineConfig}
use hl_maker_lighter_arb_cpp.Engine.HlMaker.State.{MakerHedgeEngine}
use hl_maker_lighter_arb_cpp.Engine.HlMaker.Fill.{HlFill}
use hl_maker_lighter_arb_cpp.Engine.HlMaker.Trace.{Event, market_data, hl_fill, trade_event}
use hl_maker_lighter_arb_cpp.Examples.Data.{config, quote, wide, nought, amount}
use hl_maker_lighter_arb_cpp.Examples.HlMaker.{fresh, order, resting, cancelled}

abbrev pub engine_config : EngineConfig Fixed
engine_config = record {
  strategy = config;
  hl_coin = "ETH";
  lighter_market_id = pos 0;
  dry_run = false;
  hl_order_interval_ms = pos 3000;
  lighter_order_interval_ms = pos 500;
  spec_hedge_min_cross_bps = amount 5 1;
  spec_hedge_min_trade_ratio = amount 0 0;
}

-- Venues that accept everything, at a time and with quotes of both.
abbrev pub venues : ℕ → Bbo Fixed → Bbo Fixed → Bool → Answers Fixed
venues now hl lighter confirms = record {
  steady_now_ms = pos now;
  epoch_now_ms = 1000000 + now;
  hl_get_bbo = λ coin. hl;
  hl_place_limit_order = λ r. record { ok = true; message = ""; oid = "7" };
  hl_place_ioc_order =
      λ r. record { ok = true; message = ""; filled_size = r.size; avg_fill_price = r.price };
  hl_cancel_order = λ coin oid dry. record { ok = true; message = ""; oid = oid };
  hl_reduce_position = λ coin buy size dry. record {
    ok = true;
    message = "";
    filled_size = size;
    avg_fill_price = amount 9996 2;
  };
  lighter_get_bbo = λ market. lighter;
  lighter_place_limit_order = λ r. record {
    ok = true;
    resting_confirmed = true;
    message = "";
    tx_hash = "";
    client_order_index = pos 1;
    order_index = pos 2;
  };
  lighter_cancel_order = λ i dry. record { ok = true; message = ""; tx_hash = ""; order_index = i };
  lighter_place_ioc_order = λ r. record {
    ok = true;
    fill_confirmed = confirms;
    message = "";
    tx_hash = "";
    confirmed_size = r.size;
    fill_price = r.price;
    fee = nought;
  };
}

abbrev pub wide_at : ℕ → Answers Fixed
wide_at now = venues now (quote 9995 9997) (quote 10005 10007) true

abbrev pub narrow_at : ℕ → Answers Fixed
narrow_at now = venues now (quote 9996 9997) (quote 9997 9998) false

abbrev pub new_engine : MakerHedgeEngine Fixed
new_engine = record {
  config = engine_config;
  strategy = fresh;
  active_hl_oid = none;
  recently_placed_oids = [];
  last_maker_direction = short_lighter_long_hl;
  hl_position_base = nought;
  speculative_hedge_sent = false;
  speculative_hedge_size = nought;
  speculative_hedge_oid = "";
  maker_order_placed_epoch_ms = 0;
  last_hl_place_ms = pos 0;
  last_hl_cancel_ms = pos 0;
  last_lighter_api_ms = pos 0;
  deferred_hl_action = none;
  next_retry_steady_ms = none;
  skip_count = 0;
}

-- The engine with the order at rest, and with a hedge sent ahead for it.
abbrev pub live : MakerHedgeEngine Fixed
live = record new_engine {
  strategy = resting;
  active_hl_oid = some "7";
  recently_placed_oids = "7" ∷ [];
  maker_order_placed_epoch_ms = 1003500;
  last_hl_place_ms = pos 3500;
}

abbrev pub hedged_ahead : MakerHedgeEngine Fixed
hedged_ahead = record live {
  speculative_hedge_sent = true;
  speculative_hedge_size = amount 249975 6;
  speculative_hedge_oid = "7";
}

-- The engine whose order was put off, and the same with another order at rest.
abbrev pub put_off : Action Fixed
put_off = record no_op { type = place_hl_maker; maker_order = some order }

abbrev pub waiting : MakerHedgeEngine Fixed
waiting = record new_engine {
  strategy = resting;
  last_hl_place_ms = pos 3500;
  deferred_hl_action = some put_off;
  next_retry_steady_ms = some (pos 6500);
}

abbrev pub waiting_live : MakerHedgeEngine Fixed
waiting_live = record waiting { active_hl_oid = some "7"; recently_placed_oids = "7" ∷ [] }

abbrev pub stuck : MakerHedgeEngine Fixed
stuck = record new_engine { strategy = cancelled }

abbrev pub trade : TradeEvent Fixed
trade = record {
  coin = "ETH";
  price = amount 9990 2;
  size = amount 1 0;
  is_buy = false;
  timestamp_ns = 0;
  exchange_time_ms = 1003600;
}

abbrev pub fill_of : ℕ → HlFill Fixed
fill_of micros = record { oid = "7"; price = amount 9995 2; size = amount micros 6; fee = nought }

abbrev pub day : List (Event Fixed)
day =
    market_data (wide_at 3500) (wide_at 3501) (pos 3500)
    ∷ trade_event (wide_at 3600) trade
    ∷ hl_fill (wide_at 3700) (fill_of 249975) wide
    ∷ market_data (wide_at 9000) (wide_at 9001) (pos 9000)
    ∷ []
