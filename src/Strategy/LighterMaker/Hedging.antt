-- ===== src/Strategy/LighterMaker/Hedging.antt =====
-- What LighterMakerHlHedger does with a fill, and what becomes of it while a cancel is unconfirmed.
use hl_maker_lighter_arb_cpp.Common.{◌≡◌, refl, not, ◌↔◌, ◌⊎◌, some, List, [], ◌∷◌, All, arith, ◌∙◌}
use hl_maker_lighter_arb_cpp.Common.Int.{ℤ}
use hl_maker_lighter_arb_cpp.Double.{Double}
use hl_maker_lighter_arb_cpp.Types.{
  pending_lighter_maker, cancelled_pending_lighter_confirm, lighter_filled_pending_hl_hedge, opened,
  unwinding_lighter, send_hl_taker_hedge, unwind_lighter_position, PendingMakerOrder, HlHedgeIntent,
  SpreadSnapshot, no_op,
}
use hl_maker_lighter_arb_cpp.Strategy.Pricing.{aggressive_hl_price}
use hl_maker_lighter_arb_cpp.Strategy.LighterMaker.Defs.{
  LighterMakerHlHedger, on_market_snapshot, on_lighter_maker_fill, on_hl_hedge_fill,
  on_hl_hedge_reject,
}
use hl_maker_lighter_arb_cpp.Strategy.LighterMaker.Trace.{Call, market_snapshot, step, run}
use hl_maker_lighter_arb_cpp.Strategy.LighterMaker.Invariant.{Inv}

-- The hedge that evens out a fill of the order: as large, on the other side.
abbrev pub Offsets : {W : Type 0} → PendingMakerOrder W → W → HlHedgeIntent W → Type 0
Offsets p size i = (i.is_buy ≡ not p.is_buy) × (i.size_base ≡ size)

module _ {W : Type 0} ⦃d : Double W⦄ where
  -- A fill asks for a hedge exactly while the order rests or its cancel is unconfirmed.
  pub lighter_fill_hedged_iff :
      (h : LighterMakerHlHedger W) (px size : W) (s : SpreadSnapshot W)
      → Inv h
      → ((on_lighter_maker_fill h px size s).1.type ≡ send_hl_taker_hedge)
        ↔ ((h.state ≡ pending_lighter_maker) ⊎ (h.state ≡ cancelled_pending_lighter_confirm))
  unfolding on_lighter_maker_fill
  lighter_fill_hedged_iff h px size s v = (λ e. ground arith, λ e. ground arith)

  -- The hedge of a fill is as large as the fill, on the other side and at the aggressive price; the
  -- order is gone, so a second fill is not hedged again.
  lighter_fill_hedge :
      (h : LighterMakerHlHedger W) (px size px' size' : W) (s s' : SpreadSnapshot W)
      {p : PendingMakerOrder W}
      → Inv h
      → h.pending_maker ≡ some p
      → let (h', a) = on_lighter_maker_fill h px size s in
        ((i : HlHedgeIntent W) × (a.hl_hedge_intent ≡ some i)
          × Offsets p size i
          × (i.limit_price ≡ aggressive_hl_price s p.direction))
        × (h'.state ≡ lighter_filled_pending_hl_hedge)
        × (on_lighter_maker_fill h' px' size' s' ≡ (h', no_op))
  unfolding on_lighter_maker_fill
  lighter_fill_hedge h px size px' size' s s' {p} v e =
      let i : HlHedgeIntent W = record {
        is_buy = not p.is_buy;
        limit_price = aggressive_hl_price s p.direction;
        size_base = size;
      } in
      ((i, ground arith, (refl, refl), refl), ground arith, ground arith)

  -- After a fill, a confirmed hedge opens the pair with both prices, and a rejected one asks to unwind
  -- Lighter with the position kept.
  pub hl_hedge_outcome :
      (h : LighterMakerHlHedger W) (px size hl_px : W) (s : SpreadSnapshot W)
      {p : PendingMakerOrder W}
      → h.pending_maker ≡ some p
      → let h' = (on_lighter_maker_fill h px size s).0 in
        ((on_hl_hedge_fill h' hl_px).state ≡ opened)
        × ((on_hl_hedge_fill h' hl_px).open_position
            ≡ some (record {
              direction = p.direction;
              size_base = size;
              hl_fill_price = hl_px;
              lighter_fill_price = px;
            }))
        × ((on_hl_hedge_reject h').1.type ≡ unwind_lighter_position)
        × ((on_hl_hedge_reject h').0.state ≡ unwinding_lighter)
        × ((on_hl_hedge_reject h').0.open_position ≡ h'.open_position)
  unfolding on_lighter_maker_fill on_hl_hedge_fill on_hl_hedge_reject
  hl_hedge_outcome h px size hl_px s e = ground arith

  -- While the cancel is unconfirmed a snapshot asks for nothing, and keeps the state and the order.
  snapshot_while_cancelled :
      (h : LighterMakerHlHedger W) (s : SpreadSnapshot W) (now : ℤ)
      → h.state ≡ cancelled_pending_lighter_confirm
      → let (h', a) = on_market_snapshot h s now in
        (a ≡ no_op)
        × (h'.state ≡ cancelled_pending_lighter_confirm)
        × (h'.pending_maker ≡ h.pending_maker)
  unfolding on_market_snapshot
  snapshot_while_cancelled h s now e = ground arith

  abbrev IsSnapshot : Call W → Type 0
  IsSnapshot (market_snapshot s now) = Unit
  IsSnapshot _ = ⊥

  -- Snapshots alone never lead out of CancelledPendingLighterConfirm: after any number of them the next one
  -- asks for nothing, so no new order replaces the cancelled one, which is still there to be filled.
  pub lighter_cancelled_absorbs :
      (h : LighterMakerHlHedger W) (cs : List (Call W)) (s : SpreadSnapshot W) (now : ℤ)
      → h.state ≡ cancelled_pending_lighter_confirm
      → All IsSnapshot cs
      → ((run h cs).state ≡ cancelled_pending_lighter_confirm)
        × ((run h cs).pending_maker ≡ h.pending_maker)
        × ((on_market_snapshot (run h cs) s now).1 ≡ no_op)
  unfolding run step
  lighter_cancelled_absorbs h [] s now e a = (e, refl, (snapshot_while_cancelled h s now e).0)
  lighter_cancelled_absorbs h (market_snapshot t at ∷ cs) s now e (_, a) =
      let (quiet, state, kept) = snapshot_while_cancelled h t at e in
      let (last, same, next) =
        lighter_cancelled_absorbs (on_market_snapshot h t at).0 cs s now state a in
      (last, same ∙ kept, next)
  lighter_cancelled_absorbs h (_ ∷ cs) s now e (no_snapshot, a) = absurd no_snapshot
