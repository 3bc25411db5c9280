-- ===== src/Engine/HlMaker/TradeEvent.antt =====
-- `MakerHedgeEngine::on_trade_event`: a public trade through the resting order's price is hedged before
-- the fill is reported.
use Prim.Native.String.{String}
use hl_maker_lighter_arb_cpp.Common.{
  ◌+◌, ◌%◌, Bool, true, not, ◌&&◌, none, some, [], ◌∷◌, ltb, ◌==◌, if◌then◌else◌,
}
use hl_maker_lighter_arb_cpp.Double.{Double, lit, ◌+ᵈ◌, ◌-ᵈ◌, ◌*ᵈ◌, ◌/ᵈ◌, ◌<ᵈ◌, ◌≤ᵈ◌}
use hl_maker_lighter_arb_cpp.Types.{
  short_lighter_long_hl, eq_direction, TradeEvent, PendingMakerOrder, SpreadSnapshot, mid, valid,
}
use hl_maker_lighter_arb_cpp.Exchange.{Answers, LighterIocRequest, lighter_ioc}
use hl_maker_lighter_arb_cpp.Engine.Outcome.{
  Outcome, quiet, slipped, collect_snapshot, speculative_success, speculative_failed,
  speculative_debug,
}
use hl_maker_lighter_arb_cpp.Engine.HlMaker.State.{MakerHedgeEngine, clear_speculative}

module _ {W : Type 0} ⦃d : Double W⦄ where
  -- The timestamp gate: the trade is older than the order.
  unfoldable pub is_stale_trade : MakerHedgeEngine W → TradeEvent W → Bool
  is_stale_trade e trade =
      ltb 0 trade.exchange_time_ms
      && ltb 0 e.maker_order_placed_epoch_ms
      && ltb trade.exchange_time_ms e.maker_order_placed_epoch_ms

  -- `price_crossed` by the price, and then by the size of the trade.
  unfoldable pub crosses_price : MakerHedgeEngine W → TradeEvent W → PendingMakerOrder W → Bool
  crosses_price e trade order =
      let ratio = e.config.spec_hedge_min_cross_bps /ᵈ lit 10000 0 in
      if order.is_buy
      then trade.price ≤ᵈ (order.price *ᵈ (lit 1 0 -ᵈ ratio))
      else (order.price *ᵈ (lit 1 0 +ᵈ ratio)) ≤ᵈ trade.price

  unfoldable pub is_too_small : MakerHedgeEngine W → TradeEvent W → PendingMakerOrder W → Bool
  is_too_small e trade order =
      (lit 0 0 <ᵈ e.config.spec_hedge_min_trade_ratio)
      && (lit 0 0 <ᵈ order.size_base)
      && ((trade.size /ᵈ order.size_base) <ᵈ e.config.spec_hedge_min_trade_ratio)

  abbrev pub speculative_request :
      MakerHedgeEngine W → SpreadSnapshot W → PendingMakerOrder W → LighterIocRequest W
  speculative_request e snapshot order =
      let is_ask = eq_direction order.direction short_lighter_long_hl in
      record {
        is_ask = is_ask;
        price = slipped is_ask (mid snapshot.lighter) 15;
        size = order.size_base;
        signal_price = mid snapshot.lighter;
        dry_run = e.config.dry_run;
      }

  -- The `!price_crossed` exit: every hundredth such trade is logged.
  unfoldable pub skip_trade :
      MakerHedgeEngine W → TradeEvent W → PendingMakerOrder W → Outcome W (MakerHedgeEngine W)
  skip_trade e trade order =
      let count = e.skip_count + 1 in
      record {
        engine = record e { skip_count = count };
        sent = [];
        logs =
            if count % 100 == 0
            then speculative_debug count order.price order.is_buy trade.price ∷ []
            else [];
        journal = [];
      }

  -- The hedge itself, and what its answer sets.
  unfoldable pub fire_speculative :
      Answers W
      → MakerHedgeEngine W
      → TradeEvent W
      → String
      → PendingMakerOrder W
      → SpreadSnapshot W
      → Outcome W (MakerHedgeEngine W)
  unfolding clear_speculative
  fire_speculative env e trade oid order snapshot =
      let request = speculative_request e snapshot order in
      let ack = env.lighter_place_ioc_order request in
      let marked = record e {
        speculative_hedge_sent = true;
        speculative_hedge_size = order.size_base;
        speculative_hedge_oid = oid;
      } in
      if ack.ok && ack.fill_confirmed
      then record {
        engine = marked;
        sent = lighter_ioc request ∷ [];
        logs =
            speculative_success trade.price order.price ack.fill_price ack.confirmed_size
              ack.tx_hash
            ∷ [];
        journal = [];
      }
      else record {
        engine = clear_speculative marked;
        sent = lighter_ioc request ∷ [];
        logs = speculative_failed trade.price order.price ack.message ∷ [];
        journal = [];
      }

  unfoldable pub react_to_trade :
      Answers W
      → MakerHedgeEngine W
      → TradeEvent W
      → String
      → PendingMakerOrder W
      → Outcome W (MakerHedgeEngine W)
  unfolding skip_trade fire_speculative
  react_to_trade env e trade oid order =
      let snapshot = collect_snapshot e.config env in
      if e.speculative_hedge_sent
      then quiet e
      else if is_stale_trade e trade
      then quiet e
      else if not (crosses_price e trade order && not (is_too_small e trade order))
      then skip_trade e trade order
      else if not (valid snapshot e.config.strategy.max_quote_age_ms)
      then quiet e
      else fire_speculative env e trade oid order snapshot

  unfoldable pub on_trade_event :
      Answers W → MakerHedgeEngine W → TradeEvent W → Outcome W (MakerHedgeEngine W)
  unfolding react_to_trade
  on_trade_event env e trade = elim e.active_hl_oid [
    | none ↦ quiet e
    | some oid ↦ elim e.strategy.pending_maker [
      | none ↦ quiet e
      | some order ↦ react_to_trade env e trade oid order
    ]
  ]
