-- ===== src/Examples/LighterMaker.antt =====
-- LighterMakerHlHedger at concrete inputs: the life of one order, and the theorems along it.
use hl_maker_lighter_arb_cpp.Common.{◌≡◌, refl, true, false, none, some, List, [], ◌∷◌, arith}
use hl_maker_lighter_arb_cpp.Common.Int.{pos, ◌-ℤ◌}
use hl_maker_lighter_arb_cpp.Double.Fixed.{Fixed, fixed_double}
use hl_maker_lighter_arb_cpp.Types.{
  idle, pending_lighter_maker, cancelled_pending_lighter_confirm, short_lighter_long_hl,
  place_lighter_maker, PendingMakerOrder, mid, valid,
}
use hl_maker_lighter_arb_cpp.Strategy.Pricing.{created, hl_anchored_lighter_price}
use hl_maker_lighter_arb_cpp.Strategy.LighterMaker.Defs.{
  LighterMakerHlHedger, no_gate, construct, on_market_snapshot, build_maker_order, has_reverted,
  can_arm,
}
use hl_maker_lighter_arb_cpp.Strategy.LighterMaker.Trace.{
  Call, market_snapshot, lighter_maker_fill, hl_hedge_fill,
}
use hl_maker_lighter_arb_cpp.Strategy.LighterMaker.Invariant.{Inv}
use hl_maker_lighter_arb_cpp.Examples.Data.{config, wide, narrow, amount}

abbrev pub unused : LighterMakerHlHedger Fixed
unused = record {
  config = config;
  state = idle;
  gate = no_gate;
  pending_maker = none;
  open_position = none;
  last_disarm_ms = pos 0;
}

-- The order, the object with it at rest, and with its cancel unconfirmed.
abbrev pub sell_order : PendingMakerOrder Fixed
sell_order = record {
  direction = short_lighter_long_hl;
  is_buy = false;
  price = amount 10007 2;
  size_base = amount 249975 6;
  trigger_spread_bps = amount 10 0;
  entry_spread_bps = amount 2 0;
}

abbrev pub selling : LighterMakerHlHedger Fixed
selling = record unused {
  state = pending_lighter_maker;
  gate = record { armed = true; direction = short_lighter_long_hl; entry_spread_bps = amount 2 0 };
  pending_maker = some sell_order;
}

abbrev pub withdrawn : LighterMakerHlHedger Fixed
withdrawn = record selling {
  state = cancelled_pending_lighter_confirm;
  gate = record { armed = false; direction = short_lighter_long_hl; entry_spread_bps = amount 2 0 };
  last_disarm_ms = pos 700;
}

pub unused-Inv : Inv unused
unused-Inv = ground arith

constructed : construct config ≡ created unused
unfolding construct
constructed = refl

pub selling-Inv : Inv selling
selling-Inv = ground arith

placed : (on_market_snapshot unused wide (pos 600)).0 ≡ selling
unfolding on_market_snapshot has_reverted can_arm build_maker_order ◌-ℤ◌ hl_anchored_lighter_price
    mid valid
placed = refl

placed_type : (on_market_snapshot unused wide (pos 600)).1.type ≡ place_lighter_maker
unfolding on_market_snapshot has_reverted can_arm build_maker_order ◌-ℤ◌ hl_anchored_lighter_price
    mid valid
placed_type = refl

reverted : (on_market_snapshot selling narrow (pos 700)).0 ≡ withdrawn
unfolding on_market_snapshot has_reverted can_arm build_maker_order ◌-ℤ◌ hl_anchored_lighter_price
    mid valid
reverted = refl

abbrev life : List (Call Fixed)
life =
    market_snapshot wide (pos 600)
    ∷ market_snapshot narrow (pos 700)
    ∷ lighter_maker_fill (amount 10007 2) (amount 25 2) narrow
    ∷ hl_hedge_fill (amount 9997 2)
    ∷ []
