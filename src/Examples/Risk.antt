-- ===== src/Examples/Risk.antt =====
-- RiskGuard at concrete inputs.
use hl_maker_lighter_arb_cpp.Common.{◌≡◌, refl, true, false, ◌↔◌, ◌≤◌, List, [], ◌∷◌, arith}
use hl_maker_lighter_arb_cpp.Common.Int.{pos}
use hl_maker_lighter_arb_cpp.Double.Fixed.{Fixed, fixed_double}
use hl_maker_lighter_arb_cpp.Risk.Defs.{RiskConfig, RiskGuard, construct}
use hl_maker_lighter_arb_cpp.Risk.KillSwitch.{
  Report, hedge_failure, hedge_success, exposure, report_all, longest_streak,
  kill_switch_iff_streak,
}
use hl_maker_lighter_arb_cpp.Examples.Data.{amount, nought}

abbrev limits : RiskConfig Fixed
limits = record {
  max_exposure_usd = amount 100 0;
  stale_quote_kill_ms = pos 5000;
  max_consecutive_hedge_failures = pos 2;
  max_single_trade_usd = amount 50 0;
}

abbrev pub guard : RiskGuard Fixed
guard = record {
  config = limits;
  current_exposure_usd = nought;
  consecutive_hedge_failures = pos 0;
  kill_switch = false;
  kill_switch_reason = "";
}

abbrev reports : List (Report Fixed)
reports = hedge_failure ∷ hedge_success ∷ hedge_failure ∷ hedge_failure ∷ exposure nought ∷ []

kill_switch_iff_streak_example :
    ((report_all (construct limits) reports).kill_switch ≡ true) ↔ (2 ≤ longest_streak 0 0 reports)
kill_switch_iff_streak_example =
    kill_switch_iff_streak limits 2 reports refl (omega arith)
      ((λ m. m), ((λ m. m), ((λ m. m), ((λ m. m), ((λ m. m), tt)))))
