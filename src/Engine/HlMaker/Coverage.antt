-- ===== src/Engine/HlMaker/Coverage.antt =====
-- What MakerHedgeEngine does to even out a fill.
use hl_maker_lighter_arb_cpp.Common.{
  map, ◌≡◌, refl, Bool, true, false, not, ◌&&◌, none, List, [], ◌∷◌, arith, if◌then◌else◌,
}
use hl_maker_lighter_arb_cpp.Double.{Double, ◌+ᵈ◌}
use hl_maker_lighter_arb_cpp.Types.{idle, short_lighter_long_hl, eq_direction, SpreadSnapshot}
use hl_maker_lighter_arb_cpp.Exchange.{Answers, Sent, lighter_ioc, hl_reduce}
use hl_maker_lighter_arb_cpp.Engine.HlMaker.State.{MakerHedgeEngine, contains}
use hl_maker_lighter_arb_cpp.Engine.HlMaker.Fill.{HlFill, hedge_fill_request, on_hl_fill}

-- The order that rested was a buy on Hyperliquid.
abbrev pub bought : {W : Type 0} → MakerHedgeEngine W → Bool
bought e = eq_direction e.last_maker_direction short_lighter_long_hl

module _ {W : Type 0} ⦃d : Double W⦄ where
  -- What the engine sends for a fill that it hedges now: an order on Lighter of the other side and the
  -- same size and, unless that was confirmed, an order that closes the fill on Hyperliquid again.
  abbrev pub Covers :
      Answers W → MakerHedgeEngine W → HlFill W → SpreadSnapshot W → List (Sent W) → Type 0
  Covers env e fill s sent =
      let request = hedge_fill_request e fill s in
      let ack = env.lighter_place_ioc_order request in
      (request.is_ask ≡ bought e)
      × (request.size ≡ fill.size)
      × (sent
          ≡ lighter_ioc request
            ∷ (if ack.ok && ack.fill_confirmed
                then []
                else hl_reduce e.config.hl_coin (not (bought e)) fill.size e.config.dry_run ∷ []))

  -- A fill of an order that the engine knows, and has not hedged ahead, is covered: it is offset on
  -- Lighter or else closed on Hyperliquid. The position counts it exactly if the hedge was confirmed,
  -- and the strategy is Idle with no active order.
  pub fill_covered :
      (env : Answers W) (e : MakerHedgeEngine W) (fill : HlFill W) (s : SpreadSnapshot W)
      → contains e.recently_placed_oids fill.oid ≡ true
      → e.speculative_hedge_sent ≡ false
      → let o = on_hl_fill env e fill s in
        let ack = env.lighter_place_ioc_order (hedge_fill_request e fill s) in
        Covers env e fill s o.sent
        × (o.engine.hl_position_base ≡ (
            if ack.ok && ack.fill_confirmed
            then e.hl_position_base +ᵈ (if bought e then fill.size else d.neg fill.size)
            else e.hl_position_base))
        × (o.engine.strategy.state ≡ idle)
        × (o.engine.active_hl_oid ≡ none)
  unfolding on_hl_fill
  fill_covered env e fill s known fresh =
      ((refl, refl, ground arith), ground arith, ground arith, ground arith)

  -- The journal names the side of the fill on Hyperliquid rightly when the hedge was confirmed, and
  -- the opposite side when it was not.
  journal_side :
      (env : Answers W) (e : MakerHedgeEngine W) (fill : HlFill W) (s : SpreadSnapshot W)
      → contains e.recently_placed_oids fill.oid ≡ true
      → e.speculative_hedge_sent ≡ false
      → let ack = env.lighter_place_ioc_order (hedge_fill_request e fill s) in
        map (λ entry. entry.hl_side) (on_hl_fill env e fill s).journal
        ≡ (if ack.ok && ack.fill_confirmed
            then (if bought e then "B" else "S")
            else (if bought e then "S" else "B"))
          ∷ []
  unfolding on_hl_fill
  journal_side env e fill s known fresh = ground arith
