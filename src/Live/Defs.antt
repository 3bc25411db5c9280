-- ===== src/Live/Defs.antt =====
-- One tick of the loop under the policy HlMakerLtTaker, after its queues of fills and trades are empty.
-- What the loop prints is left out.
use Prim.Native.String.{String, find, len, ◌++◌ as append}
use text.Mathlib.Text.{◌==◌ as str_eq}
use hl_maker_lighter_arb_cpp.Common.{Bool, not, ◌&&◌, ◌||◌, none, some, [], ◌∷◌, leb, if◌then◌else◌}
use hl_maker_lighter_arb_cpp.Common.Int.{ℤ, pos, ltb_ℤ}
use hl_maker_lighter_arb_cpp.Double.{Double, lit, ◌-ᵈ◌, ◌<ᵈ◌, ◌≤ᵈ◌}
use hl_maker_lighter_arb_cpp.Types.{SpreadSnapshot}
use hl_maker_lighter_arb_cpp.Risk.Defs.{RiskGuard, activate_kill_switch, reset_kill_switch}
use hl_maker_lighter_arb_cpp.Exchange.{Answers, hl_cancel}
use hl_maker_lighter_arb_cpp.Engine.Outcome.{Outcome, quiet, and_then}
use hl_maker_lighter_arb_cpp.Engine.HlMaker.State.{MakerHedgeEngine, set_hl_position}
use hl_maker_lighter_arb_cpp.Engine.HlMaker.MarketData.{on_market_data}

pub record Live (W : Type 0) : Type 0 where
  pub risk : RiskGuard W
  pub engine : MakerHedgeEngine W
  pub dry_run : Bool

-- What a tick finds: `feed.snapshot()`, `fill_feed->is_subscribed()`, what `query_hl_position` returns,
-- the clock, and the answers to the engine.
pub record Tick (W : Type 0) : Type 0 where
  pub snap : SpreadSnapshot W
  pub fills_subscribed : Bool
  pub actual_position : W
  pub now_ms : ℤ
  pub env : Answers W
  pub later : Answers W

-- `s.find(t) != npos`
unfoldable pub has_text : String → String → Bool
has_text s t = leb (find s t) (len s)

-- The reasons for which the switch goes off again once the fill feed is back.
unfoldable pub is_feed_reason : String → Bool
is_feed_reason reason =
    str_eq reason "fill feed not subscribed" || has_text reason "fill feed disconnected"

module _ {W : Type 0} where
  -- The kill switch goes on and the active order is cancelled; the answer is not looked at.
  unfoldable pub kill_and_cancel : Live W → String → Outcome W (Live W)
  unfolding activate_kill_switch
  kill_and_cancel l reason = record {
    engine = record l { risk = activate_kill_switch l.risk reason };
    sent = elim l.engine.active_hl_oid [
      | none ↦ []
      | some oid ↦ hl_cancel "HYPE" oid l.dry_run ∷ []
    ];
    logs = [];
    journal = [];
  }

  -- The callback for a lost connection.
  unfoldable pub on_disconnect : Live W → String → Outcome W (Live W)
  unfolding kill_and_cancel
  on_disconnect l reason =
      if l.risk.kill_switch
      then quiet l
      else kill_and_cancel l (append "fill feed disconnected: " reason)

  unfoldable pub is_stale : Tick W → Bool
  is_stale t =
      ltb_ℤ (pos 5000) t.snap.lighter.quote_age_ms || ltb_ℤ (pos 5000) t.snap.hl.quote_age_ms

module _ {W : Type 0} ⦃d : Double W⦄ where
  -- The state of the fill feed, looked at on every tick.
  unfoldable pub check_feed : Live W → Tick W → Outcome W (Live W)
  unfolding kill_and_cancel reset_kill_switch set_hl_position is_feed_reason
  check_feed l t =
      if not t.fills_subscribed && not l.risk.kill_switch
      then kill_and_cancel l "fill feed not subscribed"
      else if t.fills_subscribed && l.risk.kill_switch && is_feed_reason l.risk.kill_switch_reason
      then quiet (record l {
        risk = reset_kill_switch l.risk;
        engine =
            if lit 1 3 <ᵈ d.fabs (t.actual_position -ᵈ l.engine.hl_position_base)
            then set_hl_position l.engine t.actual_position
            else l.engine;
      })
      else quiet l

  -- The call of the engine.
  unfoldable pub run_engine : Live W → Tick W → Outcome W (Live W)
  run_engine l t =
      let o = on_market_data t.env t.later l.engine t.now_ms in
      record {
        engine = record l { engine = o.engine };
        sent = o.sent;
        logs = o.logs;
        journal = o.journal;
      }

  -- The age of the quotes, and the last look at the switch.
  unfoldable pub check_quotes : Tick W → Live W → Outcome W (Live W)
  unfolding activate_kill_switch reset_kill_switch run_engine is_stale
  check_quotes t l =
      if is_stale t
      then quiet (
          if l.risk.kill_switch
          then l
          else record l { risk = activate_kill_switch l.risk "stale quotes detected" })
      else if l.risk.kill_switch && str_eq l.risk.kill_switch_reason "stale quotes detected"
      then run_engine (record l { risk = reset_kill_switch l.risk }) t
      else if l.risk.kill_switch
      then quiet l
      else run_engine l t

  unfoldable pub tick : Live W → Tick W → Outcome W (Live W)
  unfolding check_feed check_quotes
  tick l t =
      if (t.snap.hl.bid ≤ᵈ lit 0 0) || (t.snap.lighter.bid ≤ᵈ lit 0 0)
      then quiet l
      else and_then (check_feed l t) (check_quotes t)
