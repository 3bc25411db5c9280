-- ===== src/Engine/HlMaker/Fill.antt =====
-- `MakerHedgeEngine::on_hl_fill`: a fill of the maker order is evened out on Lighter, or against the
-- hedge that a trade event has already sent.
use Prim.Native.String.{String, slice}
use text.Mathlib.Text.{◌==◌ as str_eq}
use hl_maker_lighter_arb_cpp.Common.{Bool, not, ◌&&◌, none, [], ◌∷◌, if◌then◌else◌}
use hl_maker_lighter_arb_cpp.Double.{Double, lit, ◌-ᵈ◌, ◌<ᵈ◌}
use hl_maker_lighter_arb_cpp.Types.{short_lighter_long_hl, eq_direction, SpreadSnapshot, mid}
use hl_maker_lighter_arb_cpp.Exchange.{
  Answers, LighterIocRequest, LighterIocAck, HlReduceAck, lighter_ioc, hl_reduce,
}
use hl_maker_lighter_arb_cpp.Engine.Outcome.{
  Outcome, quiet, slipped, JournalEntry, speculative_reconciled, speculative_correction,
  speculative_overshoot_unwind, trade_complete, perf_trade, hedge_unconfirmed, hedge_failed,
  hl_unwind,
}
use hl_maker_lighter_arb_cpp.Engine.HlMaker.State.{
  MakerHedgeEngine, contains, erase, reset_strategy, add_fill, clear_speculative,
}

-- One report of a fill: the arguments of `on_hl_fill` but the snapshot and the receive time.
pub record HlFill (W : Type 0) : Type 0 where
  pub price : W
  pub size : W
  pub oid : String
  pub fee : W

module _ {W : Type 0} ⦃d : Double W⦄ where
  -- `is_ask` of the hedge: a fill that bought on Hyperliquid is sold on Lighter.
  abbrev pub hedge_is_ask : MakerHedgeEngine W → Bool
  hedge_is_ask e = eq_direction e.last_maker_direction short_lighter_long_hl

  -- A taker order of this side, price and size, with the mid of Lighter for the record.
  abbrev pub taker_request :
      MakerHedgeEngine W → SpreadSnapshot W → Bool → W → W → LighterIocRequest W
  taker_request e snapshot is_ask price size = record {
    is_ask = is_ask;
    price = price;
    size = size;
    signal_price = mid snapshot.lighter;
    dry_run = e.config.dry_run;
  }

  -- The order is done with: its id is forgotten and the strategy starts anew.
  unfoldable pub retire : MakerHedgeEngine W → MakerHedgeEngine W
  unfolding reset_strategy
  retire e = reset_strategy (record e { active_hl_oid = none })

  -- The branch of a fill of the order that a speculative hedge was sent for.
  unfoldable pub reconcile :
      Answers W → MakerHedgeEngine W → HlFill W → SpreadSnapshot W → Outcome W (MakerHedgeEngine W)
  unfolding retire add_fill clear_speculative
  reconcile env e fill snapshot =
      let size_diff = fill.size -ᵈ e.speculative_hedge_size in
      let overshoot = d.neg size_diff in
      let is_ask = hedge_is_ask e in
      let forgotten = record e { recently_placed_oids = erase e.recently_placed_oids fill.oid } in
      let settled = clear_speculative (retire (add_fill forgotten fill.size)) in
      let correction =
        taker_request e snapshot is_ask (slipped is_ask (mid snapshot.lighter) 10) size_diff in
      let correction_ack = env.lighter_place_ioc_order correction in
      let unwind =
        taker_request e snapshot (not is_ask) (slipped (not is_ask) (mid snapshot.lighter) 15)
          overshoot in
      let unwind_ack = env.lighter_place_ioc_order unwind in
      if d.fabs size_diff <ᵈ lit 1 3
      then record {
        engine = settled;
        sent = [];
        logs = speculative_reconciled fill.size e.speculative_hedge_size ∷ [];
        journal = [];
      }
      else if lit 1 3 <ᵈ size_diff
      then record {
        engine = settled;
        sent = lighter_ioc correction ∷ [];
        logs =
            speculative_correction fill.size e.speculative_hedge_size size_diff correction_ack.ok
            ∷ [];
        journal = [];
      }
      else record {
        engine = clear_speculative (add_fill e fill.size);
        sent = lighter_ioc unwind ∷ [];
        logs =
            speculative_overshoot_unwind fill.size e.speculative_hedge_size overshoot unwind_ack.ok
              unwind_ack.message
            ∷ [];
        journal = [];
      }

  -- The journal entry of a hedge that was filled,
  abbrev pub filled_entry :
      MakerHedgeEngine W → HlFill W → SpreadSnapshot W → LighterIocAck W → JournalEntry W
  filled_entry e fill snapshot ack = record {
    type = "T";
    hedge_status = "filled";
    hl_side = if hedge_is_ask e then "B" else "S";
    hl_px = fill.price;
    hl_sz = fill.size;
    hl_fee = fill.fee;
    lt_fill_px = ack.fill_price;
    lt_sz = ack.confirmed_size;
    lt_fee = ack.fee;
    spread_bps = snapshot.cross_spread_bps;
    hl_oid = fill.oid;
    lt_tx = ack.tx_hash;
    unwind_fill_px = lit 0 0;
    unwind_fill_sz = lit 0 0;
    failure_reason = "";
  }

  -- and of one that was not, after its unwind.
  abbrev pub unwound_entry :
      MakerHedgeEngine W
      → HlFill W
      → SpreadSnapshot W
      → HlReduceAck W
      → (type status lt_tx why : String) → JournalEntry W
  unwound_entry e fill snapshot unwind type status lt_tx why = record {
    type = type;
    hedge_status = status;
    hl_side = if hedge_is_ask e then "S" else "B";
    hl_px = fill.price;
    hl_sz = fill.size;
    hl_fee = fill.fee;
    lt_fill_px = lit 0 0;
    lt_sz = lit 0 0;
    lt_fee = lit 0 0;
    spread_bps = snapshot.cross_spread_bps;
    hl_oid = fill.oid;
    lt_tx = lt_tx;
    unwind_fill_px = unwind.avg_fill_price;
    unwind_fill_sz = unwind.filled_size;
    failure_reason = why;
  }

  abbrev pub hedge_fill_request :
      MakerHedgeEngine W → HlFill W → SpreadSnapshot W → LighterIocRequest W
  hedge_fill_request e fill snapshot =
      taker_request e snapshot (hedge_is_ask e) (slipped (hedge_is_ask e) (mid snapshot.lighter) 10)
        fill.size

  -- The branch of a fill that no hedge was sent for: hedge it now, and where that is not confirmed
  -- close the Hyperliquid side again.
  unfoldable pub hedge_fill :
      Answers W → MakerHedgeEngine W → HlFill W → SpreadSnapshot W → Outcome W (MakerHedgeEngine W)
  unfolding retire add_fill
  hedge_fill env e fill snapshot =
      let request = hedge_fill_request e fill snapshot in
      let ack = env.lighter_place_ioc_order request in
      let unwind_buy = not (hedge_is_ask e) in
      let unwind = env.hl_reduce_position e.config.hl_coin unwind_buy fill.size e.config.dry_run in
      let reduce = hl_reduce e.config.hl_coin unwind_buy fill.size e.config.dry_run in
      let unwind_log = hl_unwind unwind.ok unwind.filled_size unwind.avg_fill_price in
      if ack.ok && ack.fill_confirmed
      then record {
        engine = retire (add_fill e fill.size);
        sent = lighter_ioc request ∷ [];
        logs =
            trade_complete fill.price fill.size ack.fill_price ack.confirmed_size ack.tx_hash
              snapshot.cross_spread_bps fill.fee
            ∷ perf_trade fill.oid
            ∷ [];
        journal = filled_entry e fill snapshot ack ∷ [];
      }
      else if ack.ok
      then record {
        engine = retire e;
        sent = lighter_ioc request ∷ reduce ∷ [];
        logs =
            hedge_unconfirmed fill.price fill.size ack.tx_hash
            ∷ unwind_log
            ∷ perf_trade fill.oid
            ∷ [];
        journal =
            unwound_entry e fill snapshot unwind "U" "unconfirmed_then_unwind" ack.tx_hash
              "lighter_unconfirmed"
            ∷ [];
      }
      else record {
        engine = retire e;
        sent = lighter_ioc request ∷ reduce ∷ [];
        logs =
            hedge_failed fill.price fill.size ack.message ∷ unwind_log ∷ perf_trade fill.oid ∷ [];
        journal =
            unwound_entry e fill snapshot unwind "F" "failed" "" (slice ack.message 0 100) ∷ [];
      }

  unfoldable pub on_hl_fill :
      Answers W → MakerHedgeEngine W → HlFill W → SpreadSnapshot W → Outcome W (MakerHedgeEngine W)
  unfolding reconcile hedge_fill
  on_hl_fill env e fill snapshot =
      if not (contains e.recently_placed_oids fill.oid)
      then quiet e
      else if e.speculative_hedge_sent && str_eq fill.oid e.speculative_hedge_oid
      then reconcile env e fill snapshot
      else hedge_fill env e fill snapshot
