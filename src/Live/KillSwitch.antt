-- ===== src/Live/KillSwitch.antt =====
-- What the kill switch keeps from the engine.
use text.Mathlib.Text.{◌==◌ as str_eq}
use text.Mathlib.TextEquality.{eq_iff}
use hl_maker_lighter_arb_cpp.Common.{◌≡◌, true, false, ◌||◌, [], arith}
use hl_maker_lighter_arb_cpp.Double.{Double, lit, ◌≤ᵈ◌}
use hl_maker_lighter_arb_cpp.Engine.HlMaker.MarketData.{on_market_data}
use hl_maker_lighter_arb_cpp.Engine.HlMaker.Rate.{placements}
use hl_maker_lighter_arb_cpp.Live.Defs.{
  Live, Tick, tick, is_stale, check_feed, check_quotes, kill_and_cancel,
}

-- Both venues have a bid.
abbrev pub HasBids : {W : Type 0} ⦃d : Double W⦄ → Tick W → Type 0
HasBids t = (t.snap.hl.bid ≤ᵈ lit 0 0) || (t.snap.lighter.bid ≤ᵈ lit 0 0) ≡ false

module _ {W : Type 0} ⦃d : Double W⦄ where
  -- A tick with a quote older than five seconds leaves the kill switch on and places no order, and the
  -- strategy and the active order are as before.
  pub stale_quotes_halt :
      (l : Live W) (t : Tick W)
      → HasBids t
      → is_stale t ≡ true
      → let o = tick l t in
        (o.engine.risk.kill_switch ≡ true)
        × (placements o.sent ≡ 0)
        × (o.engine.engine.strategy ≡ l.engine.strategy)
        × (o.engine.engine.active_hl_oid ≡ l.engine.active_hl_oid)
  unfolding tick check_feed check_quotes kill_and_cancel
  stale_quotes_halt l t bids stale = ground arith

  pub tick_in_outage :
      (l : Live W) (t : Tick W)
      → l.risk.kill_switch ≡ true
      → str_eq l.risk.kill_switch_reason "stale quotes detected" ≡ false
      → t.fills_subscribed ≡ false
      → let o = tick l t in (o.engine ≡ l) × (o.sent ≡ [])
  unfolding tick check_feed check_quotes
  tick_in_outage l t on reason lost = ground arith

  -- Stale quotes hide a lost fill feed: if the kill switch is on for stale quotes, the first tick with
  -- fresh ones turns it off and runs the engine although the fill feed is not subscribed.
  pub stale_hides_outage :
      (l : Live W) (t : Tick W)
      → HasBids t
      → l.risk.kill_switch ≡ true
      → l.risk.kill_switch_reason ≡ "stale quotes detected"
      → is_stale t ≡ false
      → t.fills_subscribed ≡ false
      → let o = tick l t in
        let run = on_market_data t.env t.later l.engine t.now_ms in
        (o.engine.risk.kill_switch ≡ false) × (o.engine.engine ≡ run.engine) × (o.sent ≡ run.sent)
  unfolding tick check_feed check_quotes
  stale_hides_outage l t bids on reason recent lost =
      let same : (str_eq l.risk.kill_switch_reason "stale quotes detected") ≡ true =
        (eq_iff _ _).1 reason in
      (ground arith, ground arith, ground arith)
