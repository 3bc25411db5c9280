-- ===== src/Examples/LighterEngine.antt =====
-- LighterMakerTakerEngine at concrete inputs: one order, and the theorems along its life.
use hl_maker_lighter_arb_cpp.Common.{◌≡◌, refl, none, some, List, [], ◌∷◌}
use hl_maker_lighter_arb_cpp.Common.Int.{pos, ◌-ℤ◌}
use hl_maker_lighter_arb_cpp.Double.Fixed.{Fixed, fixed_double}
use hl_maker_lighter_arb_cpp.Types.{idle, short_lighter_long_hl, no_op}
use hl_maker_lighter_arb_cpp.Strategy.Pricing.{created}
use hl_maker_lighter_arb_cpp.Strategy.LighterMaker.Defs.{construct}
use hl_maker_lighter_arb_cpp.Exchange.{hl_ioc}
use hl_maker_lighter_arb_cpp.Engine.Outcome.{quiet}
use hl_maker_lighter_arb_cpp.Engine.LighterMaker.State.{
  LighterMakerTakerEngine, construct_lighter_engine, lighter_cancel_retry_at_ms,
}
use hl_maker_lighter_arb_cpp.Engine.LighterMaker.Execute.{execute_lighter_cancel, hl_hedge_request}
use hl_maker_lighter_arb_cpp.Engine.LighterMaker.Handlers.{
  LighterFill, LighterEvent, lighter_market_data, lighter_fill, on_lighter_fill, handle_all_lighter,
}
use hl_maker_lighter_arb_cpp.Engine.LighterMaker.Invariant.{
  LighterEngineInv, lighter_engine_run-Inv,
}
use hl_maker_lighter_arb_cpp.Engine.LighterMaker.Coverage.{
  offsetting, lighter_fill_covered, late_lighter_fill_ignored,
}
use hl_maker_lighter_arb_cpp.Examples.Data.{amount, wide, narrow}
use hl_maker_lighter_arb_cpp.Examples.LighterMaker.{unused, selling, selling-Inv, sell_order}
use hl_maker_lighter_arb_cpp.Examples.Venues.{engine_config, wide_at, narrow_at}

abbrev new_lighter_engine : LighterMakerTakerEngine Fixed
new_lighter_engine = record {
  config = engine_config;
  strategy = unused;
  active_lighter_order_index = none;
  active_lighter_client_order_index = none;
  last_maker_direction = short_lighter_long_hl;
  last_lighter_place_ms = pos 0;
  last_lighter_cancel_ms = pos 0;
  deferred_lighter_action = none;
  next_retry_steady_ms = none;
}

-- The engine with the order at rest.
abbrev pub offering : LighterMakerTakerEngine Fixed
offering = record new_lighter_engine {
  strategy = selling;
  active_lighter_order_index = some (pos 2);
  active_lighter_client_order_index = some (pos 1);
  last_lighter_place_ms = pos 3500;
}

abbrev pub part : LighterFill Fixed
part = record { price = amount 10007 2; size = amount 1 1; order_index = pos 2 }

abbrev day : List (LighterEvent Fixed)
day =
    lighter_market_data (wide_at 3500) (wide_at 3501) (pos 3500)
    ∷ lighter_fill (wide_at 3600) part wide
    ∷ lighter_market_data (wide_at 3700) (wide_at 3701) (pos 3700)
    ∷ lighter_market_data (narrow_at 4100) (narrow_at 4101) (pos 4100)
    ∷ []

constructed_lighter_engine : construct_lighter_engine engine_config ≡ created new_lighter_engine
unfolding construct_lighter_engine construct
constructed_lighter_engine = refl

pub offering-LighterEngineInv : LighterEngineInv offering
offering-LighterEngineInv = record {
  strategy_ok = selling-Inv;
  settled = tt;
  indexed = refl;
  backed = refl;
  deferrable = tt;
}

lighter_engine_run-Inv_example : LighterEngineInv (handle_all_lighter new_lighter_engine day)
lighter_engine_run-Inv_example = lighter_engine_run-Inv engine_config day constructed_lighter_engine

lighter_fill_covered_example :
    let o = on_lighter_fill (wide_at 3600) offering part wide in
    (o.sent ≡ hl_ioc (hl_hedge_request offering (offsetting sell_order part wide)) ∷ [])
    × (o.engine.strategy.state ≡ idle)
    × (o.engine.active_lighter_order_index ≡ none)
lighter_fill_covered_example =
    lighter_fill_covered (wide_at 3600) offering part wide offering-LighterEngineInv refl refl

late_lighter_fill_ignored_example :
    let e' = (execute_lighter_cancel (narrow_at 3600) offering no_op).engine in
    on_lighter_fill (narrow_at 3601) e' part narrow ≡ quiet e'
unfolding lighter_cancel_retry_at_ms ◌-ℤ◌
late_lighter_fill_ignored_example =
    late_lighter_fill_ignored (narrow_at 3600) (narrow_at 3601) offering no_op part narrow refl refl
      refl
