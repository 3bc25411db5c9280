-- ===== src/Strategy/HlMaker/Rearm.antt =====
-- The rearm delay of HlMakerLighterHedger: how soon after a cancel an order can be placed.
use hl_maker_lighter_arb_cpp.Common.{◌≡◌, ◌∙◌, true, List, [], ◌∷◌, All, arith, leb→le}
use hl_maker_lighter_arb_cpp.Common.Int.{ℤ, ◌-ℤ◌, ◌≤ℤ◌, int_laws}
use hl_maker_lighter_arb_cpp.Double.{Double}
use hl_maker_lighter_arb_cpp.Types.{place_hl_maker, cancel_hl_maker, SpreadSnapshot, StrategyConfig}
use hl_maker_lighter_arb_cpp.Strategy.HlMaker.Defs.{
  HlMakerLighterHedger, can_arm, on_market_snapshot, on_hl_maker_fill, on_lighter_hedge_fill,
  on_lighter_hedge_reject, reset,
}
use hl_maker_lighter_arb_cpp.Strategy.HlMaker.Trace.{Call, market_snapshot, step, run}
use hl_maker_lighter_arb_cpp.Strategy.HlMaker.Invariant.{Inv, on_market_snapshot-Inv, step-Inv}
use hl_maker_lighter_arb_cpp.Strategy.HlMaker.Orders.{place_iff}

-- The call does not bring a clock reading from before `t`.
abbrev pub NotBefore : {W : Type 0} → ℤ → Call W → Type 0
NotBefore t (market_snapshot s now pos) = t ≤ℤ now
NotBefore t _ = Unit

-- The object holds still until `min_rearm_ms` after `t`.
record Resting {W : Type 0} (t : ℤ) (c : StrategyConfig W) (h : HlMakerLighterHedger W)
    : Type 0 where
  inv : Inv h
  disarmed : t ≤ℤ h.last_disarm_ms
  config_kept : h.config ≡ c

module _ {W : Type 0} ⦃d : Double W⦄ where
  step-disarmed :
      (h : HlMakerLighterHedger W) (c : Call W) (t : ℤ)
      → NotBefore t c
      → t ≤ℤ h.last_disarm_ms
      → (t ≤ℤ (step h c).0.last_disarm_ms) × ((step h c).0.config ≡ h.config)
  unfolding step on_market_snapshot on_hl_maker_fill on_lighter_hedge_fill on_lighter_hedge_reject
      reset
  step-disarmed h (market_snapshot s now pos) t b r = ground arith
  step-disarmed h _ t b r = ground arith

  run-Resting :
      (h : HlMakerLighterHedger W) (cs : List (Call W)) (t : ℤ) (c : StrategyConfig W)
      → All (NotBefore t) cs
      → Resting t c h
      → Resting t c (run h cs)
  unfolding run
  run-Resting h [] t c b r = r
  run-Resting h (k ∷ ks) t c (b, bs) r =
      let (later, same) = step-disarmed h k t b r.disarmed in
      run-Resting (step h k).0 ks t c bs
        (record { inv = step-Inv h k r.inv; disarmed = later; config_kept = same ∙ r.config_kept })

  can_arm_le :
      (c : StrategyConfig W) (h : HlMakerLighterHedger W) (t now : ℤ)
      → h.config ≡ c
      → t ≤ℤ h.last_disarm_ms
      → can_arm h now ≡ true
      → c.min_rearm_ms ≤ℤ now -ℤ t
  unfolding can_arm
  can_arm_le c h t now same later armed = rw (← same) (omega (int_laws, leb→le _ _ armed))

  cancel-Resting :
      (h : HlMakerLighterHedger W) (s : SpreadSnapshot W) (now : ℤ) (pos : W)
      → Inv h
      → (on_market_snapshot h s now pos).1.type ≡ cancel_hl_maker
      → Resting now h.config (on_market_snapshot h s now pos).0
  cancel-Resting h s now pos v e = record {
    inv = on_market_snapshot-Inv h s now pos v;
    disarmed = unfold on_market_snapshot in ground arith;
    config_kept = unfold on_market_snapshot in ground arith;
  }

  -- Between a cancel and the next placement at least `min_rearm_ms` pass, whatever calls come in
  -- between, as long as the clock does not go back behind the cancel.
  rearm_wait :
      (h : HlMakerLighterHedger W) (s s' : SpreadSnapshot W) (now now' : ℤ) (pos pos' : W)
      (cs : List (Call W))
      → Inv h
      → (on_market_snapshot h s now pos).1.type ≡ cancel_hl_maker
      → All (NotBefore now) cs
      → (on_market_snapshot (run (on_market_snapshot h s now pos).0 cs) s' now' pos').1.type
        ≡ place_hl_maker
      → h.config.min_rearm_ms ≤ℤ now' -ℤ now
  rearm_wait h s s' now now' pos pos' cs v e b placed =
      let last = run (on_market_snapshot h s now pos).0 cs in
      let r = run-Resting _ cs now h.config b (cancel-Resting h s now pos v e) in
      let (_, _, _, waited) = (place_iff last s' now' pos' r.inv).0 placed in
      can_arm_le h.config last now now' r.config_kept r.disarmed waited
