-- ===== src/Examples/HlMaker.antt =====
-- HlMakerLighterHedger at concrete inputs: an order is placed and cancelled, and the theorems on it.
use hl_maker_lighter_arb_cpp.Common.{◌≡◌, refl, true, false, none, some, arith}
use hl_maker_lighter_arb_cpp.Common.Int.{pos, ◌-ℤ◌}
use hl_maker_lighter_arb_cpp.Double.Fixed.{Fixed, fixed_double, Fixed-IsOrdered}
use hl_maker_lighter_arb_cpp.Types.{
  idle, pending_hl_maker, cancelled_pending_confirm, place_hl_maker, short_lighter_long_hl,
  eq_direction, PendingMakerOrder, mid, valid,
}
use hl_maker_lighter_arb_cpp.Strategy.Pricing.{created, lighter_anchored_hl_price}
use hl_maker_lighter_arb_cpp.Strategy.HlMaker.Defs.{
  HlMakerLighterHedger, no_gate, construct, on_market_snapshot, build_maker_order,
  effective_spread_bps, has_reverted, can_arm, direction_for_spread,
}
use hl_maker_lighter_arb_cpp.Strategy.HlMaker.Invariant.{Inv}
use hl_maker_lighter_arb_cpp.Strategy.HlMaker.Orders.{IsPassive, place_iff, placed_order}
use hl_maker_lighter_arb_cpp.Examples.Data.{config, wide, narrow, nought, amount}

abbrev pub fresh : HlMakerLighterHedger Fixed
fresh = record {
  config = config;
  state = idle;
  gate = no_gate;
  pending_maker = none;
  open_position = none;
  last_disarm_ms = pos 0;
}

abbrev pub order : PendingMakerOrder Fixed
order = record {
  direction = short_lighter_long_hl;
  is_buy = true;
  price = amount 9995 2;
  size_base = amount 249975 6;
  trigger_spread_bps = amount 10 0;
  entry_spread_bps = amount 2 0;
}

-- The object with the order at rest, and with its cancel unconfirmed.
abbrev pub resting : HlMakerLighterHedger Fixed
resting = record fresh {
  state = pending_hl_maker;
  gate = record { armed = true; direction = short_lighter_long_hl; entry_spread_bps = amount 2 0 };
  pending_maker = some order;
}

abbrev pub cancelled : HlMakerLighterHedger Fixed
cancelled = record resting {
  state = cancelled_pending_confirm;
  gate = record { armed = false; direction = short_lighter_long_hl; entry_spread_bps = amount 2 0 };
  last_disarm_ms = pos 700;
}

pub fresh-Inv : Inv fresh
fresh-Inv = ground arith

pub resting-Inv : Inv resting
resting-Inv = ground arith

constructed : construct config ≡ created fresh
unfolding construct
constructed = refl

placed : (on_market_snapshot fresh wide (pos 600) nought).0 ≡ resting
unfolding on_market_snapshot has_reverted effective_spread_bps can_arm build_maker_order ◌-ℤ◌
    lighter_anchored_hl_price mid valid
placed = refl

placed_type : (on_market_snapshot fresh wide (pos 600) nought).1.type ≡ place_hl_maker
unfolding on_market_snapshot has_reverted effective_spread_bps can_arm build_maker_order ◌-ℤ◌
    lighter_anchored_hl_price mid valid
placed_type = refl

reverted : (on_market_snapshot resting narrow (pos 700) nought).0 ≡ cancelled
unfolding on_market_snapshot has_reverted effective_spread_bps can_arm build_maker_order ◌-ℤ◌
    lighter_anchored_hl_price mid valid
reverted = refl

place_iff_example : (on_market_snapshot fresh wide (pos 600) nought).1.type ≡ place_hl_maker
unfolding effective_spread_bps can_arm mid valid ◌-ℤ◌
place_iff_example = (place_iff fresh wide (pos 600) nought fresh-Inv).1 (refl, refl, refl, refl)

placed_order_example :
    IsPassive (wide.hl) order
    × (order.direction ≡ direction_for_spread (amount 10 0))
    × (order.is_buy ≡ eq_direction order.direction short_lighter_long_hl)
unfolding on_market_snapshot has_reverted effective_spread_bps can_arm build_maker_order ◌-ℤ◌
    lighter_anchored_hl_price mid valid
placed_order_example = placed_order Fixed-IsOrdered fresh wide (pos 600) nought fresh-Inv refl refl
