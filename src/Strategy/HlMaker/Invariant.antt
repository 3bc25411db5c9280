-- ===== src/Strategy/HlMaker/Invariant.antt =====
-- What holds of HlMakerLighterHedger between two calls, whoever makes them.
use hl_maker_lighter_arb_cpp.Common.{
  ◌≡◌, refl, true, false, Option, none, some, List, [], ◌∷◌, arith, has_value,
}
use hl_maker_lighter_arb_cpp.Common.Int.{ℤ}
use hl_maker_lighter_arb_cpp.Double.{Double}
use hl_maker_lighter_arb_cpp.Types.{
  StrategyState, StrategyConfig, idle, pending_hl_maker, cancelled_pending_confirm,
  hl_filled_pending_lighter_hedge, opened, unwinding_hl, short_lighter_long_hl, eq_direction,
  PendingMakerOrder, SpreadSnapshot,
}
use hl_maker_lighter_arb_cpp.Strategy.Pricing.{created}
use hl_maker_lighter_arb_cpp.Strategy.HlMaker.Defs.{
  HlMakerLighterHedger, SignalGate, construct, build_maker_order, update_gate, has_reverted,
  on_market_snapshot, on_hl_maker_fill, on_lighter_hedge_fill, on_lighter_hedge_reject, reset,
}
use hl_maker_lighter_arb_cpp.Strategy.HlMaker.Trace.{
  Call, lighter_hedge_reject, lighter_hedge_fill, market_snapshot, step, run,
}

-- The order rests on the side that its direction says.
abbrev pub IsSided : {W : Type 0} → Option (PendingMakerOrder W) → Type 0
IsSided none = Unit
IsSided (some p) = p.is_buy ≡ eq_direction p.direction short_lighter_long_hl

-- The resting order came through the gate that is armed.
abbrev pub Gated : {W : Type 0} → SignalGate W → Option (PendingMakerOrder W) → Type 0
Gated g none = ⊥
Gated g (some p) =
    (g.armed ≡ true) × (p.direction ≡ g.direction) × (p.entry_spread_bps ≡ g.entry_spread_bps)

-- Which of the two slots are filled, state by state. The other five states are never reached.
abbrev pub Slots : {W : Type 0} → StrategyState → HlMakerLighterHedger W → Type 0
Slots idle h = (h.gate.armed ≡ false) × (h.pending_maker ≡ none) × (h.open_position ≡ none)
Slots pending_hl_maker h = Gated h.gate h.pending_maker × (h.open_position ≡ none)
Slots cancelled_pending_confirm h = (has_value h.pending_maker ≡ true) × (h.open_position ≡ none)
Slots hl_filled_pending_lighter_hedge h =
    (h.pending_maker ≡ none) × (has_value h.open_position ≡ true)
Slots opened h = (h.pending_maker ≡ none) × (has_value h.open_position ≡ true)
Slots unwinding_hl h = (h.pending_maker ≡ none) × (has_value h.open_position ≡ true)
Slots _ h = ⊥

pub record Inv {W : Type 0} (h : HlMakerLighterHedger W) : Type 0 where
  pub slots : Slots h.state h
  pub sided : IsSided h.pending_maker

module _ {W : Type 0} ⦃d : Double W⦄ where
  pub construct-Inv :
      (c : StrategyConfig W) {h : HlMakerLighterHedger W} → construct c ≡ created h → Inv h
  unfolding construct
  construct-Inv c e = ground arith

  pub build_maker_order_fields :
      (c : StrategyConfig W) (s : SpreadSnapshot W) (g : SignalGate W)
      → let p = build_maker_order c s g in
        (p.direction ≡ g.direction)
        × (p.entry_spread_bps ≡ g.entry_spread_bps)
        × (p.is_buy ≡ eq_direction g.direction short_lighter_long_hl)
  unfolding build_maker_order
  build_maker_order_fields c s g = (refl, refl, refl)

  -- In PendingHlMaker the gate and the order agree on what a reversion is.
  pub has_reverted_gated :
      (h : HlMakerLighterHedger W) (s : SpreadSnapshot W) (p : PendingMakerOrder W)
      → Inv h
      → h.state ≡ pending_hl_maker
      → h.pending_maker ≡ some p
      → (h.gate.armed ≡ true)
        × (has_reverted h.config s p.direction p.entry_spread_bps
            ≡ has_reverted h.config s h.gate.direction h.gate.entry_spread_bps)
  has_reverted_gated h s p v e f = ground arith

  pub on_market_snapshot-Inv :
      (h : HlMakerLighterHedger W) (s : SpreadSnapshot W) (now : ℤ) (pos : W)
      → Inv h
      → Inv (on_market_snapshot h s now pos).0
  unfolding on_market_snapshot
  on_market_snapshot-Inv h s now pos v =
      ground (arith, build_maker_order_fields h.config s (update_gate h s now pos).gate)

  pub step-Inv : (h : HlMakerLighterHedger W) (c : Call W) → Inv h → Inv (step h c).0
  unfolding step on_hl_maker_fill on_lighter_hedge_fill on_lighter_hedge_reject reset
  step-Inv h (market_snapshot s now pos) v = on_market_snapshot-Inv h s now pos v
  step-Inv h _ v = ground arith

  pub reset-Inv : (h : HlMakerLighterHedger W) → Inv (reset h)
  unfolding reset
  reset-Inv h = ground arith

  pub reject-Inv : (h : HlMakerLighterHedger W) → Inv h → Inv (on_lighter_hedge_reject h).0
  unfolding step
  reject-Inv h v = step-Inv h lighter_hedge_reject v

  pub hedge_fill-Inv :
      (h : HlMakerLighterHedger W) (px : W) → Inv h → Inv (on_lighter_hedge_fill h px)
  unfolding step
  hedge_fill-Inv h px v = step-Inv h (lighter_hedge_fill px) v

  run-Inv_from : (h : HlMakerLighterHedger W) (cs : List (Call W)) → Inv h → Inv (run h cs)
  unfolding run
  run-Inv_from h [] v = v
  run-Inv_from h (c ∷ cs) v = run-Inv_from (step h c).0 cs (step-Inv h c v)

  -- After any calls on a newly constructed object the state says which slots are filled: nothing in
  -- Idle, with the gate disarmed; in PendingHlMaker an order that came through the armed gate and no
  -- position; after its cancel still the order; after a fill a position and no order. The order is a
  -- buy exactly if its direction is ShortLighterLongHl, and no other state is reached.
  run-Inv :
      (c : StrategyConfig W) (cs : List (Call W)) {h : HlMakerLighterHedger W}
      → construct c ≡ created h
      → Inv (run h cs)
  run-Inv c cs e = run-Inv_from _ cs (construct-Inv c e)
