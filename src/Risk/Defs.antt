-- ===== src/Risk/Defs.antt =====
-- class RiskGuard: its configuration, its state and its methods.
use Prim.Native.String.{String}
use hl_maker_lighter_arb_cpp.Common.{Bool, true, false, ◌||◌, if◌then◌else◌}
use hl_maker_lighter_arb_cpp.Common.Int.{ℤ, pos, ◌+ℤ◌, ltb_ℤ, leb_ℤ}
use hl_maker_lighter_arb_cpp.Double.{Double, lit, ◌+ᵈ◌, ◌<ᵈ◌}
use hl_maker_lighter_arb_cpp.Types.{SpreadSnapshot}

pub record RiskConfig (W : Type 0) : Type 0 where
  pub max_exposure_usd : W
  pub stale_quote_kill_ms : ℤ
  pub max_consecutive_hedge_failures : ℤ
  pub max_single_trade_usd : W

pub data RiskVeto : Type 0 where
  ok max_exposure stale_quotes hedge_failures_exceeded trade_too_large kill_switch_active : RiskVeto

pub record RiskGuard (W : Type 0) : Type 0 where
  pub config : RiskConfig W
  pub current_exposure_usd : W
  pub consecutive_hedge_failures : ℤ
  pub kill_switch : Bool
  pub kill_switch_reason : String

unfoldable pub veto_name : RiskVeto → String
veto_name ok = "Ok"
veto_name max_exposure = "MaxExposure"
veto_name stale_quotes = "StaleQuotes"
veto_name hedge_failures_exceeded = "HedgeFailuresExceeded"
veto_name trade_too_large = "TradeTooLarge"
veto_name kill_switch_active = "KillSwitchActive"

module _ {W : Type 0} ⦃d : Double W⦄ where
  unfoldable pub construct : RiskConfig W → RiskGuard W
  construct c = record {
    config = c;
    current_exposure_usd = lit 0 0;
    consecutive_hedge_failures = pos 0;
    kill_switch = false;
    kill_switch_reason = "";
  }

  unfoldable pub check_new_entry : RiskGuard W → W → SpreadSnapshot W → RiskVeto
  check_new_entry g size_usd snap =
      if g.kill_switch
      then kill_switch_active
      else if leb_ℤ g.config.max_consecutive_hedge_failures g.consecutive_hedge_failures
      then hedge_failures_exceeded
      else if g.config.max_single_trade_usd <ᵈ size_usd
      then trade_too_large
      else if g.config.max_exposure_usd <ᵈ (g.current_exposure_usd +ᵈ size_usd)
      then max_exposure
      else if ltb_ℤ g.config.stale_quote_kill_ms snap.lighter.quote_age_ms
          || ltb_ℤ g.config.stale_quote_kill_ms snap.hl.quote_age_ms
      then stale_quotes
      else ok

  unfoldable pub set_exposure : RiskGuard W → W → RiskGuard W
  set_exposure g exposure_usd = record g { current_exposure_usd = d.fabs exposure_usd }

module _ {W : Type 0} where
  unfoldable pub activate_kill_switch : RiskGuard W → String → RiskGuard W
  activate_kill_switch g reason = record g { kill_switch = true; kill_switch_reason = reason }

  unfoldable pub on_hedge_failure : RiskGuard W → RiskGuard W
  unfolding activate_kill_switch
  on_hedge_failure g =
      let counted = record g {
        consecutive_hedge_failures = g.consecutive_hedge_failures +ℤ pos 1;
      } in
      if leb_ℤ counted.config.max_consecutive_hedge_failures counted.consecutive_hedge_failures
      then activate_kill_switch counted "consecutive hedge failures exceeded"
      else counted

  unfoldable pub on_hedge_success : RiskGuard W → RiskGuard W
  on_hedge_success g = record g { consecutive_hedge_failures = pos 0 }

  unfoldable pub reset_kill_switch : RiskGuard W → RiskGuard W
  reset_kill_switch g = record g {
    kill_switch = false;
    kill_switch_reason = "";
    consecutive_hedge_failures = pos 0;
  }
