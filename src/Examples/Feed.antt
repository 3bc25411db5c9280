-- ===== src/Examples/Feed.antt =====
-- The feeds at concrete messages.
use Prim.Native.String.{String, len}
use text.Mathlib.Text.{◌==◌ as str_eq}
use hl_maker_lighter_arb_cpp.Common.{
  ◌≡◌, refl, ◌||◌, ◌+◌, suc, true, false, none, some, inl, inr, [], ◌∷◌, arith,
}
use hl_maker_lighter_arb_cpp.Common.Int.{pos, ◌<ℤ◌}
use hl_maker_lighter_arb_cpp.Double.Fixed.{Fixed, fixed_double}
use hl_maker_lighter_arb_cpp.Exchange.{LighterRestingOrder, LighterIocAck}
use hl_maker_lighter_arb_cpp.Scan.{
  contains, find_from, substr, regex_search, search_on, digits_group, quoted_group, bool_group,
  digits_below, digits_value, drop, span,
}
use hl_maker_lighter_arb_cpp.Common.Text.{to_string, decimal}
use hl_maker_lighter_arb_cpp.Convert.{field, stoll, stoull}
use hl_maker_lighter_arb_cpp.Convert.Fixed.{fixed_conversions}
use hl_maker_lighter_arb_cpp.Engine.HlMaker.Rate.{placements}
use hl_maker_lighter_arb_cpp.Live.Defs.{tick}
use hl_maker_lighter_arb_cpp.NativeLighter.Client.{
  tx_response_ok, ensure_client, next_nonce, query_position_snapshot, World,
}
use hl_maker_lighter_arb_cpp.NativeLighter.Ioc.{place_ioc_order, wait_ms, confirmed_tx_hash}
use hl_maker_lighter_arb_cpp.Feed.Loop.{collect}
use hl_maker_lighter_arb_cpp.Feed.HlParse.{
  number_at, quoted_after, next_fill, next_trade, parse_hl_bbo,
}
use hl_maker_lighter_arb_cpp.Feed.LighterParse.{
  LighterOrderUpdate, market_key, all_some, keep_some, read_trade, parse_lighter_account_trades,
  read_order, next_order, next_account_trade, parse_lighter_order_updates,
}
use hl_maker_lighter_arb_cpp.Feed.Termination.{loops_end}
use hl_maker_lighter_arb_cpp.Feed.Market.{MarketFeed, snapshot, load}
use hl_maker_lighter_arb_cpp.Feed.Silence.{stale_venue_halts}
use hl_maker_lighter_arb_cpp.Feed.Account.{
  LighterPositionFeed, LighterAccountFeed, wait_for_position_change, wait_for_order_resting,
  on_account_message, on_account_disconnect, note_channels, put_order, resting, store_order,
  store_orders,
}
use hl_maker_lighter_arb_cpp.Feed.Confirm.{old_position_confirms}
use hl_maker_lighter_arb_cpp.Feed.Orders.{
  message, lost, steps as steps_orders, step as step_orders, waited_order_is_own,
}
use hl_maker_lighter_arb_cpp.Examples.Data.{amount}
use hl_maker_lighter_arb_cpp.Examples.Live.{running, tick_at}
use hl_maker_lighter_arb_cpp.Examples.Native.{client, world, ioc, flat, held}

abbrev bbo_message : String
bbo_message =
    "{\"channel\":\"bbo\",\"data\":{\"coin\":\"HYPE\",\"bbo\":[{\"px\":\"21.50\",\"sz\":\"10\"},{\"px\":\"21.51\",\"sz\":\"5\"}]}}"

bbo_read : parse_hl_bbo {W = Fixed} bbo_message ≡ some (amount 2150 2, amount 2151 2)
unfolding parse_hl_bbo find_from number_at quoted_after span digits_value drop
bbo_read = refl

abbrev feed : MarketFeed Fixed
feed = record {
  hl_coin = "HYPE";
  lighter_market_id = pos 24;
  has_on_trade = true;
  hl_bbo = record { bid = amount 2150 2; ask = amount 2151 2; last_update_ns = 1_000_000_000 };
  lighter_bbo = record { bid = amount 2152 2; ask = amount 2153 2; last_update_ns = 5_900_000_000 };
  hl_subscribed = true;
  lighter_subscribed = true;
  hl_trades_subscribed = true;
}

stale_venue_halts_example :
    let o = tick running (tick_at 9000 (snapshot feed 6_001_000_000 6_001_000_200) true) in
    (o.engine.risk.kill_switch ≡ true) × (placements o.sent ≡ 0)
unfolding snapshot load
stale_venue_halts_example =
    stale_venue_halts running (tick_at 9000 (snapshot feed 6_001_000_000 6_001_000_200) true) feed
      6_001_000_000 6_001_000_200 refl refl (inl (inr (omega arith)))

abbrev fill_message : String
fill_message =
    "{\"fills\":[{\"coin\":\"HYPE\",\"px\":\"21.5\",\"sz\":\"2\",\"side\":\"B\",\"oid\":12,\"fee\":\"0.1\"}]}"

loops_end_example :
    let rounds = suc (len fill_message) in
    (collect (next_fill {W = Fixed} fill_message) (rounds + 9) 0
      ≡ collect (next_fill fill_message) rounds 0)
    × (collect (next_trade {W = Fixed} fill_message "HYPE" 3) (rounds + 9) 0
        ≡ collect (next_trade fill_message "HYPE" 3) rounds 0)
    × (collect (next_order {W = Fixed} fill_message (pos 24)) (rounds + 9) 0
        ≡ collect (next_order fill_message (pos 24)) rounds 0)
    × (collect (next_account_trade {W = Fixed} fill_message (pos 5)) (rounds + 9) 0
        ≡ collect (next_account_trade fill_message (pos 5)) rounds 0)
loops_end_example = loops_end fill_message "HYPE" (pos 5) (pos 24) 3 0 9

abbrev orders_message : String
orders_message =
    "{\"channel\":\"account_orders:24/5\",\"orders\":{\"24\":[{\"order_index\":77,\"client_order_index\":1000,\"status\":\"open\"}],\"25\":[{\"order_index\":78,\"client_order_index\":1001,\"status\":\"open\"}]}}"

abbrev positions : LighterPositionFeed Fixed
positions = record {
  config = record { account_index = pos 5; market_index = pos 24; auth_token = "" };
  latest = some held;
  version = 1;
  subscribed = true;
}

abbrev accounts : LighterAccountFeed Fixed
accounts = record {
  config = positions.config;
  orders_by_client = λ _. none;
  orders_by_index = λ _. none;
  orders_subscribed = false;
  trades_subscribed = false;
}

abbrev own_order : LighterRestingOrder
own_order = record { client_order_index = pos 1000; order_index = pos 77; resting = true }

waited_order_is_own_example :
    (o : LighterOrderUpdate Fixed) × ((steps_orders accounts
          (lost ∷ message orders_message ∷ [])).orders_by_client
        (pos 1000)
      ≡ some o)
    × (o.client_order_index ≡ pos 1000)
    × (str_eq o.status "open" || str_eq o.status "in-progress" ≡ true)
    × (o.order_index ≡ pos 77)
    × (own_order.client_order_index ≡ pos 1000)
    × (pos 0 <ℤ pos 77)
    × (own_order.resting ≡ true)
unfolding wait_for_order_resting steps_orders step_orders on_account_message contains
    parse_lighter_order_updates market_key to_string on_account_disconnect all_some collect
    next_order regex_search substr digits_group read_order field decimal stoll stoull note_channels
    put_order resting store_order store_orders keep_some next_account_trade
    parse_lighter_account_trades read_trade bool_group digits_below digits_value drop find_from
    quoted_group search_on span
waited_order_is_own_example =
    waited_order_is_own accounts (lost ∷ message orders_message ∷ []) (pos 1000) {r = own_order}
      (λ k o found. ground arith) refl

abbrev listening : World Fixed
listening = record (world "{\"code\":200,\"tx_hash\":\"0xcd\"}") {
  position_waiter = some (λ baseline _. wait_for_position_change positions baseline);
}

old_position_confirms_example :
    (ack : LighterIocAck Fixed) × ((place_ioc_order client listening ioc).answer ≡ some ack)
    × (ack.fill_confirmed ≡ true)
    × (ack.confirmed_size ≡ amount 2 0)
unfolding ensure_client query_position_snapshot next_nonce tx_response_ok contains find_from wait_ms
    regex_search search_on to_string confirmed_tx_hash quoted_group span drop
old_position_confirms_example =
    old_position_confirms client client (record client { nonce_cache = 42 }) listening ioc flat held
      positions 41 500 "0xcd" refl refl refl refl refl refl refl refl refl refl refl
