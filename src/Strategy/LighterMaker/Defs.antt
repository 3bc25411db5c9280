-- ===== src/Strategy/LighterMaker/Defs.antt =====
-- The state of LighterMakerHlHedger and its methods.
use hl_maker_lighter_arb_cpp.Common.{
  Bool, true, false, not, ◌&&◌, ◌||◌, Option, none, some, if◌then◌else◌,
}
use hl_maker_lighter_arb_cpp.Common.Int.{ℤ, pos, ◌-ℤ◌, leb_ℤ}
use hl_maker_lighter_arb_cpp.Double.{Double, lit, fmin, fmax, ◌+ᵈ◌, ◌-ᵈ◌, ◌/ᵈ◌, ◌<ᵈ◌, ◌≤ᵈ◌}
use hl_maker_lighter_arb_cpp.Types.{
  Direction, short_lighter_long_hl, long_lighter_short_hl, eq_direction, StrategyState, idle,
  pending_lighter_maker, cancelled_pending_lighter_confirm, lighter_filled_pending_hl_hedge, opened,
  unwinding_lighter, is_idle, is_pending_lighter_maker, is_cancelled_pending_lighter_confirm,
  place_lighter_maker, cancel_lighter_maker, send_hl_taker_hedge, unwind_lighter_position,
  SpreadSnapshot, StrategyConfig, PendingMakerOrder, OpenHedgePosition, HlHedgeIntent, Action,
  no_op, mid, valid,
}
use hl_maker_lighter_arb_cpp.Strategy.Pricing.{
  Created, created, invalid_argument, aggressive_hl_price, hl_anchored_lighter_price,
}

pub record SignalGate (W : Type 0) : Type 0 where
  pub armed : Bool
  pub direction : Direction
  pub entry_spread_bps : W

pub record LighterMakerHlHedger (W : Type 0) : Type 0 where
  pub config : StrategyConfig W
  pub state : StrategyState
  pub gate : SignalGate W
  pub pending_maker : Option (PendingMakerOrder W)
  pub open_position : Option (OpenHedgePosition W)
  pub last_disarm_ms : ℤ

module _ {W : Type 0} ⦃d : Double W⦄ where
  -- `SignalGate {}`
  abbrev pub no_gate : SignalGate W
  no_gate = record { armed = false; direction = short_lighter_long_hl; entry_spread_bps = lit 0 0 }

  unfoldable pub construct : StrategyConfig W → Created (LighterMakerHlHedger W)
  construct c =
      if c.spread_bps ≤ᵈ lit 0 0
      then invalid_argument "spread_bps must be positive"
      else if c.cancel_band_bps <ᵈ lit 0 0
      then invalid_argument "cancel_band_bps must be non-negative"
      else created (record {
        config = c;
        state = idle;
        gate = no_gate;
        pending_maker = none;
        open_position = none;
        last_disarm_ms = pos 0;
      })

  unfoldable pub can_arm : LighterMakerHlHedger W → ℤ → Bool
  can_arm h now_ms = leb_ℤ h.config.min_rearm_ms (now_ms -ℤ h.last_disarm_ms)

  unfoldable pub direction_for_spread : W → Direction
  direction_for_spread cross_spread_bps =
      if lit 0 0 ≤ᵈ cross_spread_bps then short_lighter_long_hl else long_lighter_short_hl

  unfoldable pub cancel_threshold_bps : StrategyConfig W → W → W
  cancel_threshold_bps c entry_spread_bps =
      let threshold = entry_spread_bps -ᵈ c.cancel_band_bps in
      if lit 0 0 <ᵈ threshold then threshold else lit 0 0

  unfoldable pub build_maker_order :
      StrategyConfig W → SpreadSnapshot W → SignalGate W → PendingMakerOrder W
  build_maker_order c s gate =
      let avg_mid = (mid s.lighter +ᵈ mid s.hl) /ᵈ lit 2 0 in
      let size_base = if lit 0 0 <ᵈ avg_mid then c.pair_size_usd /ᵈ avg_mid else lit 0 0 in
      let target_price = hl_anchored_lighter_price s gate.direction gate.entry_spread_bps in
      let is_buy = eq_direction gate.direction long_lighter_short_hl in
      record {
        direction = gate.direction;
        is_buy = is_buy;
        price = if is_buy then fmin target_price s.lighter.bid else fmax target_price s.lighter.ask;
        size_base = size_base;
        trigger_spread_bps = s.cross_spread_bps;
        entry_spread_bps = gate.entry_spread_bps;
      }

  unfoldable pub build_hl_hedge : LighterMakerHlHedger W → SpreadSnapshot W → HlHedgeIntent W
  build_hl_hedge h s = elim h.open_position [
    | none ↦ record { is_buy = true; limit_price = lit 0 0; size_base = lit 0 0 }
    | some p ↦ record {
      is_buy = eq_direction p.direction short_lighter_long_hl;
      limit_price = aggressive_hl_price s p.direction;
      size_base = p.size_base;
    }
  ]

  unfoldable pub disarm : LighterMakerHlHedger W → ℤ → LighterMakerHlHedger W
  disarm h now_ms = record h { gate = record (h.gate) { armed = false }; last_disarm_ms = now_ms }

  -- `live_direction != direction || abs_spread < cancel_threshold_bps(entry)`
  unfoldable pub has_reverted : StrategyConfig W → SpreadSnapshot W → Direction → W → Bool
  unfolding direction_for_spread cancel_threshold_bps
  has_reverted c s dir entry =
      not (eq_direction (direction_for_spread s.cross_spread_bps) dir)
      || (d.fabs s.cross_spread_bps <ᵈ cancel_threshold_bps c entry)

  -- The first half of `on_market_snapshot`, which arms or disarms the gate.
  unfoldable pub update_gate :
      LighterMakerHlHedger W → SpreadSnapshot W → ℤ → LighterMakerHlHedger W
  update_gate h s now_ms =
      if h.gate.armed
      then if has_reverted h.config s h.gate.direction h.gate.entry_spread_bps
        then record h {
          gate = record (h.gate) { armed = false };
          last_disarm_ms =
              if is_idle h.state || is_cancelled_pending_lighter_confirm h.state
              then now_ms
              else h.last_disarm_ms;
        }
        else h
      else if (h.config.spread_bps ≤ᵈ d.fabs s.cross_spread_bps) && can_arm h now_ms
      then record h {
        gate = record {
          armed = true;
          direction = direction_for_spread s.cross_spread_bps;
          entry_spread_bps = h.config.spread_bps;
        };
      }
      else h

  -- The second half of `on_market_snapshot`: its `Idle` block when the gate is armed,
  unfoldable pub place_maker :
      LighterMakerHlHedger W → SpreadSnapshot W → LighterMakerHlHedger W × Action W
  place_maker h s =
      let order = build_maker_order h.config s h.gate in
      (
        record h { pending_maker = some order; state = pending_lighter_maker },
        record {
          type = place_lighter_maker;
          reason = "spread reached entry threshold";
          maker_order = some order;
          hedge_intent = none;
          hl_hedge_intent = none;
        },
      )

  -- its `PendingLighterMaker` block when the order is to go,
  unfoldable pub cancel_maker :
      LighterMakerHlHedger W → PendingMakerOrder W → ℤ → LighterMakerHlHedger W × Action W
  unfolding disarm
  cancel_maker h p now_ms = (
    disarm (record h { state = cancelled_pending_lighter_confirm }) now_ms,
    record {
      type = cancel_lighter_maker;
      reason = "spread mean-reverted below cancel threshold";
      maker_order = some p;
      hedge_intent = none;
      hl_hedge_intent = none;
    },
  )

  -- and the choice between them.
  unfoldable pub act_on_gate :
      LighterMakerHlHedger W → SpreadSnapshot W → ℤ → LighterMakerHlHedger W × Action W
  unfolding place_maker cancel_maker
  act_on_gate h s now_ms =
      if is_idle h.state
      then (if h.gate.armed then place_maker h s else (h, no_op))
      else elim h.pending_maker [
        | none ↦ (h, no_op)
        | some p ↦
            if is_pending_lighter_maker h.state
              && (not h.gate.armed || has_reverted h.config s p.direction p.entry_spread_bps)
            then cancel_maker h p now_ms
            else (h, no_op)
      ]

  unfoldable pub on_market_snapshot :
      LighterMakerHlHedger W → SpreadSnapshot W → ℤ → LighterMakerHlHedger W × Action W
  unfolding update_gate act_on_gate
  on_market_snapshot h s now_ms =
      if not (valid s h.config.max_quote_age_ms)
      then (h, no_op)
      else act_on_gate (update_gate h s now_ms) s now_ms

  unfoldable pub on_lighter_maker_fill :
      LighterMakerHlHedger W → W → W → SpreadSnapshot W → LighterMakerHlHedger W × Action W
  unfolding build_hl_hedge
  on_lighter_maker_fill h fill_price fill_size_base s = elim h.pending_maker [
    | none ↦ (h, no_op)
    | some p ↦
        let filled = record h {
          open_position = some (record {
            direction = p.direction;
            size_base = fill_size_base;
            hl_fill_price = lit 0 0;
            lighter_fill_price = fill_price;
          });
          state = lighter_filled_pending_hl_hedge;
        } in
        (
          record filled { pending_maker = none },
          record {
            type = send_hl_taker_hedge;
            reason = "lighter maker filled";
            maker_order = none;
            hedge_intent = none;
            hl_hedge_intent = some (build_hl_hedge filled s);
          },
        )
  ]

  unfoldable pub on_hl_hedge_fill : LighterMakerHlHedger W → W → LighterMakerHlHedger W
  on_hl_hedge_fill h fill_price = elim h.open_position [
    | none ↦ h
    | some p ↦ record h {
      open_position = some (record p { hl_fill_price = fill_price });
      state = opened;
    }
  ]

  unfoldable pub on_hl_hedge_reject : LighterMakerHlHedger W → LighterMakerHlHedger W × Action W
  on_hl_hedge_reject h = elim h.open_position [
    | none ↦ (h, no_op)
    | some p ↦ (
      record h { state = unwinding_lighter },
      record {
        type = unwind_lighter_position;
        reason = "hl taker hedge failed after lighter maker fill";
        maker_order = none;
        hedge_intent = none;
        hl_hedge_intent = none;
      },
    )
  ]

  unfoldable pub reset : LighterMakerHlHedger W → LighterMakerHlHedger W
  reset h = record h { gate = no_gate; pending_maker = none; open_position = none; state = idle }
