-- ===== src/Examples/LighterLive.antt =====
-- The event loop under the policy LtMakerHlTaker at a concrete input.
use hl_maker_lighter_arb_cpp.Common.{◌≡◌, refl, true, none, [], ◌∷◌}
use hl_maker_lighter_arb_cpp.Double.Fixed.{Fixed, fixed_double}
use hl_maker_lighter_arb_cpp.Types.{idle}
use hl_maker_lighter_arb_cpp.Exchange.{hl_ioc}
use hl_maker_lighter_arb_cpp.Engine.LighterMaker.Execute.{hl_hedge_request}
use hl_maker_lighter_arb_cpp.Engine.LighterMaker.Coverage.{offsetting}
use hl_maker_lighter_arb_cpp.Live.Defs.{is_stale}
use hl_maker_lighter_arb_cpp.Live.LighterPolicy.{LighterLive, QueuedLighterFill, lighter_pass}
use hl_maker_lighter_arb_cpp.Live.Halted.{stale_fill_covered}
use hl_maker_lighter_arb_cpp.Examples.Data.{wide}
use hl_maker_lighter_arb_cpp.Examples.Risk.{guard}
use hl_maker_lighter_arb_cpp.Examples.LighterMaker.{sell_order}
use hl_maker_lighter_arb_cpp.Examples.LighterEngine.{offering, part, offering-LighterEngineInv}
use hl_maker_lighter_arb_cpp.Examples.Venues.{wide_at}
use hl_maker_lighter_arb_cpp.Examples.Live.{tick_at, old}

abbrev selling_live : LighterLive Fixed
selling_live = record { risk = guard; engine = offering }

abbrev sold : QueuedLighterFill Fixed
sold = record { fill = part; snapshot = wide; env = wide_at 3600 }

stale_fill_covered_example :
    let o = lighter_pass selling_live (sold ∷ []) (tick_at 9000 old true) in
    (o.sent ≡ hl_ioc (hl_hedge_request offering (offsetting sell_order part wide)) ∷ [])
    × (o.engine.risk.kill_switch ≡ true)
    × (o.engine.engine.strategy.state ≡ idle)
    × (o.engine.engine.active_lighter_order_index ≡ none)
unfolding is_stale
stale_fill_covered_example =
    stale_fill_covered selling_live sold (tick_at 9000 old true) offering-LighterEngineInv refl refl
      refl refl
