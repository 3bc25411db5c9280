-- ===== src/Risk/Entry.antt =====
-- When RiskGuard lets a new order in.
use hl_maker_lighter_arb_cpp.Common.{◌≡◌, ◌↔◌, false, arith}
use hl_maker_lighter_arb_cpp.Common.Int.{◌≤ℤ◌, ◌<ℤ◌}
use hl_maker_lighter_arb_cpp.Double.{Double, IsOrdered, lit, ◌+ᵈ◌, ◌<ᵈ◌}
use hl_maker_lighter_arb_cpp.Types.{SpreadSnapshot}
use hl_maker_lighter_arb_cpp.Risk.Defs.{
  RiskGuard, ok, kill_switch_active, check_new_entry, set_exposure,
}

-- What an entry has to meet, apart from the order in which it is tested.
pub record IsAllowed {W : Type 0} ⦃d : Double W⦄ (g : RiskGuard W) (size : W) (s : SpreadSnapshot W)
    : Type 0 where
  pub switch_off : g.kill_switch ≡ false
  pub few_failures : g.consecutive_hedge_failures <ℤ g.config.max_consecutive_hedge_failures
  pub small : g.config.max_single_trade_usd <ᵈ size ≡ false
  pub within_exposure : g.config.max_exposure_usd <ᵈ (g.current_exposure_usd +ᵈ size) ≡ false
  pub lighter_fresh : s.lighter.quote_age_ms ≤ℤ g.config.stale_quote_kill_ms
  pub hl_fresh : s.hl.quote_age_ms ≤ℤ g.config.stale_quote_kill_ms

module _ {W : Type 0} ⦃d : Double W⦄ where
  -- An entry is let in exactly if the kill switch is off, the hedge failures are below their limit,
  -- the trade and the exposure with it are not above theirs, and neither quote is stale.
  check_new_entry_iff :
      (g : RiskGuard W) (size : W) (s : SpreadSnapshot W)
      → (check_new_entry g size s ≡ ok) ↔ IsAllowed g size s
  unfolding check_new_entry
  check_new_entry_iff g size s = (λ e. ground arith, λ a. ground arith)

  -- The exposure that the limit is held against is never negative, whatever sign was reported, and
  -- setting it changes no other veto.
  pub set_exposure_lem :
      IsOrdered W
      → (g : RiskGuard W) (x size : W) (s : SpreadSnapshot W)
      → ((set_exposure g x).current_exposure_usd <ᵈ lit 0 0 ≡ false)
        × (check_new_entry g size s ≡ kill_switch_active
            → check_new_entry (set_exposure g x) size s ≡ kill_switch_active)
  unfolding set_exposure check_new_entry
  set_exposure_lem laws g x size s = (laws.not-fabs-lt-zero x, λ e. ground arith)
