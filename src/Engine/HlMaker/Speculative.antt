-- ===== src/Engine/HlMaker/Speculative.antt =====
-- The hedge that MakerHedgeEngine sends ahead of a fill, and the fill that it is settled against.
use text.Mathlib.Text.{◌==◌ as str_eq}
use text.Mathlib.TextEquality.{eq_iff}
use text.Mathlib.TextPositions.{eq_refl}
use hl_maker_lighter_arb_cpp.Common.{
  ◌≡◌, ◌≢◌, has_value, true, false, not, none, some, [], ◌∷◌, arith, if◌then◌else◌,
}
use hl_maker_lighter_arb_cpp.Double.{Double, IsOrdered, lit, ◌+ᵈ◌, ◌-ᵈ◌, ◌<ᵈ◌}
use hl_maker_lighter_arb_cpp.Types.{idle, PendingMakerOrder, SpreadSnapshot, TradeEvent, valid, mid}
use hl_maker_lighter_arb_cpp.Exchange.{Answers, lighter_ioc}
use hl_maker_lighter_arb_cpp.Engine.Outcome.{collect_snapshot, slipped}
use hl_maker_lighter_arb_cpp.Engine.HlMaker.State.{MakerHedgeEngine, contains}
use hl_maker_lighter_arb_cpp.Engine.HlMaker.Fill.{HlFill, on_hl_fill, taker_request}
use hl_maker_lighter_arb_cpp.Engine.HlMaker.TradeEvent.{
  on_trade_event, speculative_request, is_stale_trade, crosses_price, is_too_small,
}
use hl_maker_lighter_arb_cpp.Engine.HlMaker.Coverage.{bought}

-- The fill belongs to the order that a hedge was sent ahead for.
pub record IsHedgedAhead {W : Type 0} (e : MakerHedgeEngine W) (fill : HlFill W) : Type 0 where
  pub known : contains e.recently_placed_oids fill.oid ≡ true
  pub hedged : e.speculative_hedge_sent ≡ true
  pub same_order : fill.oid ≡ e.speculative_hedge_oid

module _ {W : Type 0} ⦃d : Double W⦄ where
  -- A hedge goes out ahead of the fill only for an order that rests with an id, that has none yet, for
  -- a trade that is not older than the order, goes through its price and is large enough, and on a
  -- valid snapshot; it is then one order on Lighter of the size of the resting order.
  speculative_sent :
      (env : Answers W) (e : MakerHedgeEngine W) (trade : TradeEvent W)
      (order : PendingMakerOrder W)
      → e.strategy.pending_maker ≡ some order
      → (on_trade_event env e trade).sent ≢ []
      → (has_value e.active_hl_oid ≡ true)
        × (e.speculative_hedge_sent ≡ false)
        × (is_stale_trade e trade ≡ false)
        × (crosses_price e trade order ≡ true)
        × (is_too_small e trade order ≡ false)
        × (valid (collect_snapshot e.config env) e.config.strategy.max_quote_age_ms ≡ true)
        × ((on_trade_event env e trade).sent
            ≡ lighter_ioc (speculative_request e (collect_snapshot e.config env) order) ∷ [])
  unfolding on_trade_event
  speculative_sent env e trade order g sends = ground arith

  -- A fill that was hedged ahead is settled: the position counts it, the record of the hedge is
  -- cleared, and what is sent depends on the difference alone: nothing within the tolerance of 0.001,
  -- the missing part on the side of the hedge above it, the excess on the other side otherwise.
  ahead_settled :
      (env : Answers W) (e : MakerHedgeEngine W) (fill : HlFill W) (s : SpreadSnapshot W)
      → IsHedgedAhead e fill
      → let o = on_hl_fill env e fill s in
        let diff = fill.size -ᵈ e.speculative_hedge_size in
        let ask = bought e in
        (o.engine.hl_position_base
          ≡ e.hl_position_base +ᵈ (if bought e then fill.size else d.neg fill.size))
        × (o.engine.speculative_hedge_sent ≡ false)
        × (o.sent ≡ (
            if d.fabs diff <ᵈ lit 1 3
            then []
            else if lit 1 3 <ᵈ diff
            then lighter_ioc (taker_request e s ask (slipped ask (mid s.lighter) 10) diff) ∷ []
            else lighter_ioc
                (taker_request e s (not ask) (slipped (not ask) (mid s.lighter) 15) (d.neg diff))
              ∷ []))
  unfolding on_hl_fill
  ahead_settled env e fill s ahead =
      let same : (str_eq fill.oid e.speculative_hedge_oid) ≡ true =
        (eq_iff _ _).1 ahead.same_order in
      (ground arith, ground arith, ground arith)

  -- From the trade to the fill: a confirmed hedge sent ahead of a fill of the whole order is the only
  -- order that the trade costs on Lighter, and after the fill the engine is Idle with the position
  -- counted.
  pub trade_then_fill :
      (env env' : Answers W) (e : MakerHedgeEngine W) (trade : TradeEvent W) (fill : HlFill W)
      (s : SpreadSnapshot W) {order : PendingMakerOrder W}
      → e.strategy.pending_maker ≡ some order
      → e.active_hl_oid ≡ some fill.oid
      → contains e.recently_placed_oids fill.oid ≡ true
      → e.speculative_hedge_sent ≡ false
      → (on_trade_event env e trade).engine.speculative_hedge_sent ≡ true
      → d.fabs (fill.size -ᵈ order.size_base) <ᵈ lit 1 3 ≡ true
      → let o = on_trade_event env e trade in
        let o' = on_hl_fill env' o.engine fill s in
        (o.sent ≡ lighter_ioc (speculative_request e (collect_snapshot e.config env) order) ∷ [])
        × (o'.sent ≡ [])
        × (o'.engine.strategy.state ≡ idle)
        × (o'.engine.active_hl_oid ≡ none)
        × (o'.engine.hl_position_base
            ≡ e.hl_position_base +ᵈ (if bought e then fill.size else d.neg fill.size))
  unfolding on_trade_event on_hl_fill
  trade_then_fill env env' e trade fill s {order} g f known fresh fired close =
      let self = eq_refl fill.oid in
      (ground arith, ground arith, ground arith, ground arith, ground arith)

  -- A fill that exceeds the hedge by exactly the tolerance is treated as one that falls short: instead
  -- of hedging the rest the engine sells the other way, with the negated difference as the size.
  tolerance_gap :
      (env : Answers W) (e : MakerHedgeEngine W) (fill : HlFill W) (s : SpreadSnapshot W)
      → IsOrdered W
      → IsHedgedAhead e fill
      → d.fabs (lit 1 3) ≡ lit 1 3
      → fill.size -ᵈ e.speculative_hedge_size ≡ lit 1 3
      → let other = not (bought e) in
        (on_hl_fill env e fill s).sent
        ≡ lighter_ioc (taker_request e s other (slipped other (mid s.lighter) 15) (d.neg (lit 1 3)))
          ∷ []
  tolerance_gap env e fill s laws ahead positive gap =
      let irrefl = laws.lt_irrefl (lit 1 3) in
      let sent = (ahead_settled env e fill s ahead).2 in ground arith
