-- ===== src/Strategy/HlMaker/Hedging.antt =====
-- What HlMakerLighterHedger does with a fill, and what becomes of it while a cancel is unconfirmed.
use hl_maker_lighter_arb_cpp.Common.{◌≡◌, refl, ◌↔◌, ◌⊎◌, some, List, [], ◌∷◌, All, arith, ◌∙◌}
use hl_maker_lighter_arb_cpp.Common.Int.{ℤ}
use hl_maker_lighter_arb_cpp.Double.{Double}
use hl_maker_lighter_arb_cpp.Types.{
  cancel_hl_maker, pending_hl_maker, cancelled_pending_confirm, hl_filled_pending_lighter_hedge,
  opened, unwinding_hl, send_lighter_taker_hedge, unwind_hl_position, PendingMakerOrder,
  HedgeIntent, SpreadSnapshot, no_op,
}
use hl_maker_lighter_arb_cpp.Strategy.Pricing.{aggressive_lighter_price}
use hl_maker_lighter_arb_cpp.Strategy.HlMaker.Defs.{
  HlMakerLighterHedger, on_market_snapshot, on_hl_maker_fill, on_lighter_hedge_fill,
  on_lighter_hedge_reject,
}
use hl_maker_lighter_arb_cpp.Strategy.HlMaker.Trace.{Call, market_snapshot, step, run}
use hl_maker_lighter_arb_cpp.Strategy.HlMaker.Invariant.{Inv}

-- The hedge that evens out a fill of the order: as large, on the other side.
abbrev pub Offsets : {W : Type 0} → PendingMakerOrder W → W → HedgeIntent W → Type 0
Offsets p size i = (i.is_ask ≡ p.is_buy) × (i.size_base ≡ size)

module _ {W : Type 0} ⦃d : Double W⦄ where
  -- A fill asks for a hedge exactly while the order rests or its cancel is unconfirmed.
  fill_hedged_iff :
      (h : HlMakerLighterHedger W) (px size : W) (s : SpreadSnapshot W)
      → Inv h
      → ((on_hl_maker_fill h px size s).1.type ≡ send_lighter_taker_hedge)
        ↔ ((h.state ≡ pending_hl_maker) ⊎ (h.state ≡ cancelled_pending_confirm))
  unfolding on_hl_maker_fill
  fill_hedged_iff h px size s v = (λ e. ground arith, λ e. ground arith)

  -- The hedge of a fill is as large as the fill, on the other side and at the aggressive price; the
  -- order is gone, so a second fill is not hedged again.
  fill_hedge :
      (h : HlMakerLighterHedger W) (px size px' size' : W) (s s' : SpreadSnapshot W)
      {p : PendingMakerOrder W}
      → Inv h
      → h.pending_maker ≡ some p
      → let (h', a) = on_hl_maker_fill h px size s in
        ((i : HedgeIntent W) × (a.hedge_intent ≡ some i)
          × Offsets p size i
          × (i.limit_price ≡ aggressive_lighter_price s p.direction))
        × (h'.state ≡ hl_filled_pending_lighter_hedge)
        × (on_hl_maker_fill h' px' size' s' ≡ (h', no_op))
  unfolding on_hl_maker_fill
  fill_hedge h px size px' size' s s' {p} v e =
      let i : HedgeIntent W = record {
        is_ask = p.is_buy;
        limit_price = aggressive_lighter_price s p.direction;
        size_base = size;
      } in
      ((i, ground arith, (refl, refl), refl), ground arith, ground arith)

  -- After a fill, a confirmed hedge opens the pair with both prices, and a rejected one asks to unwind
  -- Hyperliquid with the position kept.
  pub hedge_outcome :
      (h : HlMakerLighterHedger W) (px size lighter_px : W) (s : SpreadSnapshot W)
      {p : PendingMakerOrder W}
      → h.pending_maker ≡ some p
      → let h' = (on_hl_maker_fill h px size s).0 in
        ((on_lighter_hedge_fill h' lighter_px).state ≡ opened)
        × ((on_lighter_hedge_fill h' lighter_px).open_position
            ≡ some (record {
              direction = p.direction;
              size_base = size;
              hl_fill_price = px;
              lighter_fill_price = lighter_px;
            }))
        × ((on_lighter_hedge_reject h').1.type ≡ unwind_hl_position)
        × ((on_lighter_hedge_reject h').0.state ≡ unwinding_hl)
        × ((on_lighter_hedge_reject h').0.open_position ≡ h'.open_position)
  unfolding on_hl_maker_fill on_lighter_hedge_fill on_lighter_hedge_reject
  hedge_outcome h px size lighter_px s e = ground arith

  -- Whoever cancels waits for the confirmation.
  pub cancel_waits :
      (h : HlMakerLighterHedger W) (s : SpreadSnapshot W) (now : ℤ) (pos : W)
      → (on_market_snapshot h s now pos).1.type ≡ cancel_hl_maker
      → (on_market_snapshot h s now pos).0.state ≡ cancelled_pending_confirm
  unfolding on_market_snapshot
  cancel_waits h s now pos e = ground arith

  -- While the cancel is unconfirmed a snapshot asks for nothing, and keeps the state and the order.
  pub snapshot_while_cancelled :
      (h : HlMakerLighterHedger W) (s : SpreadSnapshot W) (now : ℤ) (pos : W)
      → h.state ≡ cancelled_pending_confirm
      → let (h', a) = on_market_snapshot h s now pos in
        (a ≡ no_op) × (h'.state ≡ cancelled_pending_confirm) × (h'.pending_maker ≡ h.pending_maker)
  unfolding on_market_snapshot
  snapshot_while_cancelled h s now pos e = ground arith

  abbrev IsSnapshot : Call W → Type 0
  IsSnapshot (market_snapshot s now pos) = Unit
  IsSnapshot _ = ⊥

  -- Snapshots alone never lead out of CancelledPendingConfirm: after any number of them the next one
  -- asks for nothing, so no new order replaces the cancelled one, which is still there to be filled.
  cancelled_absorbs :
      (h : HlMakerLighterHedger W) (cs : List (Call W)) (s : SpreadSnapshot W) (now : ℤ) (pos : W)
      → h.state ≡ cancelled_pending_confirm
      → All IsSnapshot cs
      → ((run h cs).state ≡ cancelled_pending_confirm)
        × ((run h cs).pending_maker ≡ h.pending_maker)
        × ((on_market_snapshot (run h cs) s now pos).1 ≡ no_op)
  unfolding run step
  cancelled_absorbs h [] s now pos e a = (e, refl, (snapshot_while_cancelled h s now pos e).0)
  cancelled_absorbs h (market_snapshot t at at_pos ∷ cs) s now pos e (_, a) =
      let (quiet, state, kept) = snapshot_while_cancelled h t at at_pos e in
      let (last, same, next) =
        cancelled_absorbs (on_market_snapshot h t at at_pos).0 cs s now pos state a in
      (last, same ∙ kept, next)
  cancelled_absorbs h (_ ∷ cs) s now pos e (no_snapshot, a) = absurd no_snapshot
