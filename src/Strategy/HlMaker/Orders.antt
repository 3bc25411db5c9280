-- ===== src/Strategy/HlMaker/Orders.antt =====
-- When HlMakerLighterHedger places and cancels its maker order, and at which price.
use hl_maker_lighter_arb_cpp.Common.{◌≡◌, true, false, ◌↔◌, some, arith, if◌then◌else◌}
use hl_maker_lighter_arb_cpp.Common.Int.{ℤ}
use hl_maker_lighter_arb_cpp.Double.{Double, IsOrdered, lit, ◌<ᵈ◌, ◌≤ᵈ◌, ◌-ᵈ◌}
use hl_maker_lighter_arb_cpp.Types.{
  idle, pending_hl_maker, short_lighter_long_hl, eq_direction, place_hl_maker, cancel_hl_maker, Bbo,
  PendingMakerOrder, SpreadSnapshot, StrategyConfig, valid, no_op,
}
use hl_maker_lighter_arb_cpp.Strategy.HlMaker.Defs.{
  HlMakerLighterHedger, SignalGate, build_maker_order, update_gate, can_arm, effective_spread_bps,
  has_reverted, cancel_threshold_bps, direction_for_spread, on_market_snapshot,
}
use hl_maker_lighter_arb_cpp.Strategy.HlMaker.Invariant.{
  Inv, has_reverted_gated, build_maker_order_fields,
}

-- The price does not cross the book: a buy is not above the best bid, a sell not below the best ask.
abbrev pub IsPassive : {W : Type 0} ⦃d : Double W⦄ → Bbo W → PendingMakerOrder W → Type 0
IsPassive b p = if p.is_buy then b.bid <ᵈ p.price ≡ false else p.price <ᵈ b.ask ≡ false

module _ {W : Type 0} ⦃d : Double W⦄ where
  -- An order is placed exactly if the object is Idle, the snapshot is valid, the spread is at least
  -- the threshold for this position, and the rearm delay has passed.
  pub place_iff :
      (h : HlMakerLighterHedger W) (s : SpreadSnapshot W) (now : ℤ) (pos : W)
      → Inv h
      → ((on_market_snapshot h s now pos).1.type ≡ place_hl_maker) ↔ (
          (h.state ≡ idle)
          × (valid s h.config.max_quote_age_ms ≡ true)
          × (effective_spread_bps h.config s.cross_spread_bps pos ≤ᵈ d.fabs s.cross_spread_bps
              ≡ true)
          × (can_arm h now ≡ true))
  unfolding on_market_snapshot
  place_iff h s now pos v = (λ e. ground arith, λ e. ground arith)

  -- The resting order is cancelled exactly if a valid snapshot shows a spread of the other direction
  -- or one below the order's cancel threshold.
  pub cancel_iff :
      (h : HlMakerLighterHedger W) (s : SpreadSnapshot W) (now : ℤ) (pos : W)
      (p : PendingMakerOrder W)
      → Inv h
      → h.pending_maker ≡ some p
      → ((on_market_snapshot h s now pos).1.type ≡ cancel_hl_maker) ↔ (
          (h.state ≡ pending_hl_maker)
          × (valid s h.config.max_quote_age_ms ≡ true)
          × (has_reverted h.config s p.direction p.entry_spread_bps ≡ true))
  unfolding on_market_snapshot
  cancel_iff h s now pos p v e =
      let agree = has_reverted_gated h s p v in
      (λ f. ground (arith, agree), λ f. ground (arith, agree))

  build_maker_order-IsPassive :
      IsOrdered W
      → (c : StrategyConfig W) (s : SpreadSnapshot W) (g : SignalGate W)
      → IsPassive s.hl (build_maker_order c s g)
  unfolding build_maker_order
  build_maker_order-IsPassive laws c s g =
      ground (arith, laws.lt_irrefl s.hl.bid, laws.lt_irrefl s.hl.ask)

  -- An order that is placed does not cross the book of Hyperliquid, and is for the direction of the
  -- spread.
  pub placed_order :
      IsOrdered W
      → (h : HlMakerLighterHedger W) (s : SpreadSnapshot W) (now : ℤ) (pos : W)
        {p : PendingMakerOrder W}
      → Inv h
      → (on_market_snapshot h s now pos).1.type ≡ place_hl_maker
      → (on_market_snapshot h s now pos).1.maker_order ≡ some p
      → IsPassive s.hl p
        × (p.direction ≡ direction_for_spread s.cross_spread_bps)
        × (p.is_buy ≡ eq_direction p.direction short_lighter_long_hl)
  unfolding on_market_snapshot
  placed_order laws h s now pos v e f =
      let g = (update_gate h s now pos).gate in
      ground (
        arith,
        build_maker_order-IsPassive laws h.config s g,
        build_maker_order_fields h.config s g,
      )

  -- A spread that reaches the entry threshold is not below the cancel threshold of that entry.
  not-below-cancel_threshold :
      IsOrdered W
      → (c : StrategyConfig W) (entry x : W) → c.cancel_band_bps <ᵈ lit 0 0 ≡ false
      → entry ≤ᵈ d.fabs x ≡ true
      → d.fabs x <ᵈ cancel_threshold_bps c entry ≡ false
  unfolding cancel_threshold_bps
  not-below-cancel_threshold laws c entry x band reached =
      let t = entry -ᵈ c.cancel_band_bps in
      ground (
        arith,
        laws.not-fabs-lt-zero x,
        laws.le_self_of_lt (lit 0 0) t,
        laws.sub_le entry c.cancel_band_bps band,
        laws.le_trans t entry (d.fabs x),
        laws.not_lt_of_le t (d.fabs x),
      )

  -- The two thresholds do not make the object flap: an order that a snapshot placed is neither
  -- cancelled nor replaced while the same snapshot comes again.
  placed_stays :
      IsOrdered W
      → (h : HlMakerLighterHedger W) (s : SpreadSnapshot W) (now later : ℤ) (pos pos' : W) → Inv h
      → h.config.cancel_band_bps <ᵈ lit 0 0 ≡ false
      → (on_market_snapshot h s now pos).1.type ≡ place_hl_maker
      → let h' = (on_market_snapshot h s now pos).0 in
        on_market_snapshot h' s later pos' ≡ (h', no_op)
  unfolding on_market_snapshot has_reverted
  placed_stays laws h s now later pos pos' v band e =
      let entry = effective_spread_bps h.config s.cross_spread_bps pos in
      ground (
        arith,
        build_maker_order_fields h.config s (update_gate h s now pos).gate,
        not-below-cancel_threshold laws h.config entry s.cross_spread_bps band,
      )
