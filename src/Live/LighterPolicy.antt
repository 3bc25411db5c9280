-- ===== src/Live/LighterPolicy.antt =====
-- A pass of the loop under the policy LtMakerHlTaker. The checks of the fill feed are those of the other
-- policy alone, so that the age of the quotes is all that turns the kill switch on.
use text.Mathlib.Text.{◌==◌ as str_eq}
use hl_maker_lighter_arb_cpp.Common.{◌&&◌, ◌||◌, List, [], ◌∷◌, if◌then◌else◌}
use hl_maker_lighter_arb_cpp.Double.{Double, lit, ◌≤ᵈ◌}
use hl_maker_lighter_arb_cpp.Types.{SpreadSnapshot}
use hl_maker_lighter_arb_cpp.Risk.Defs.{RiskGuard, activate_kill_switch, reset_kill_switch}
use hl_maker_lighter_arb_cpp.Exchange.{Answers}
use hl_maker_lighter_arb_cpp.Engine.Outcome.{Outcome, quiet, and_then}
use hl_maker_lighter_arb_cpp.Engine.LighterMaker.State.{LighterMakerTakerEngine}
use hl_maker_lighter_arb_cpp.Engine.LighterMaker.Handlers.{
  LighterFill, on_lighter_fill, on_lighter_market_data,
}
use hl_maker_lighter_arb_cpp.Live.Defs.{Tick, is_stale}

pub record LighterLive (W : Type 0) : Type 0 where
  pub risk : RiskGuard W
  pub engine : LighterMakerTakerEngine W

-- A fill as it is taken out of its queue: with the snapshot and the answers that the engine then finds.
pub record QueuedLighterFill (W : Type 0) : Type 0 where
  pub fill : LighterFill W
  pub snapshot : SpreadSnapshot W
  pub env : Answers W

module _ {W : Type 0} where
  -- A handler of the engine as a step of the loop.
  abbrev pub lighter_lifted :
      LighterLive W → Outcome W (LighterMakerTakerEngine W) → Outcome W (LighterLive W)
  lighter_lifted l o = record {
    engine = record l { engine = o.engine };
    sent = o.sent;
    logs = o.logs;
    journal = o.journal;
  }

module _ {W : Type 0} ⦃d : Double W⦄ where
  unfoldable pub drain_lighter_fills :
      List (QueuedLighterFill W) → LighterLive W → Outcome W (LighterLive W)
  drain_lighter_fills [] l = quiet l
  drain_lighter_fills (q ∷ qs) l =
      and_then (lighter_lifted l (on_lighter_fill q.env l.engine q.fill q.snapshot))
        (drain_lighter_fills qs)

  abbrev run_lighter_engine : LighterLive W → Tick W → Outcome W (LighterLive W)
  run_lighter_engine l t = lighter_lifted l (on_lighter_market_data t.env t.later l.engine t.now_ms)

  unfoldable pub lighter_tick : LighterLive W → Tick W → Outcome W (LighterLive W)
  unfolding activate_kill_switch reset_kill_switch is_stale
  lighter_tick l t =
      if (t.snap.hl.bid ≤ᵈ lit 0 0) || (t.snap.lighter.bid ≤ᵈ lit 0 0)
      then quiet l
      else if is_stale t
      then quiet (
          if l.risk.kill_switch
          then l
          else record l { risk = activate_kill_switch l.risk "stale quotes detected" })
      else if l.risk.kill_switch && str_eq l.risk.kill_switch_reason "stale quotes detected"
      then run_lighter_engine (record l { risk = reset_kill_switch l.risk }) t
      else if l.risk.kill_switch
      then quiet l
      else run_lighter_engine l t

  -- One pass: the fills, then the tick.
  unfoldable pub lighter_pass :
      LighterLive W → List (QueuedLighterFill W) → Tick W → Outcome W (LighterLive W)
  lighter_pass l fills t = and_then (drain_lighter_fills fills l) (λ next. lighter_tick next t)
