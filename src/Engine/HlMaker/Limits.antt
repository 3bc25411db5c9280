-- ===== src/Engine/HlMaker/Limits.antt =====
-- What MakerHedgeEngine never sends: an order beyond the position limit, or one before its time.
use mathlib.Core.Path.{subst₂}
use hl_maker_lighter_arb_cpp.Common.{
  Bool-cases, Option-cases, inl, inr, ◌≡◌, false, ◌&&◌, none, All, arith,
}
use hl_maker_lighter_arb_cpp.Common.Int.{ℤ}
use hl_maker_lighter_arb_cpp.Double.{Double, lit, ◌*ᵈ◌, ◌<ᵈ◌, ◌≤ᵈ◌}
use hl_maker_lighter_arb_cpp.Types.{Action, SpreadSnapshot, mid}
use hl_maker_lighter_arb_cpp.Strategy.HlMaker.Defs.{on_market_snapshot}
use hl_maker_lighter_arb_cpp.Exchange.{Answers, Sent, hl_limit}
use hl_maker_lighter_arb_cpp.Engine.Outcome.{EngineConfig, unless_logged-All, collect_snapshot}
use hl_maker_lighter_arb_cpp.Engine.HlMaker.State.{MakerHedgeEngine, would_increase, limit_blocks}
use hl_maker_lighter_arb_cpp.Engine.HlMaker.Execute.{
  execute_action, execute_place, execute_cancel, execute_hedge, execute_unwind,
}
use hl_maker_lighter_arb_cpp.Engine.HlMaker.MarketData.{
  on_market_data, run_strategy, is_blocked, too_early, execute_deferred_hl_action,
}

-- The position limit is not reached at this price, or the order does not add to the position.
abbrev pub WithinLimit :
    {W : Type 0} ⦃d : Double W⦄ → EngineConfig W → W → SpreadSnapshot W → Sent W → Type 0
WithinLimit ⦃d⦄ c position snapshot (hl_limit r) =
    (lit 0 0 <ᵈ mid snapshot.hl)
      && (c.strategy.max_position_usd ≤ᵈ (d.fabs position *ᵈ mid snapshot.hl))
      && would_increase position r.is_buy
    ≡ false
WithinLimit c position snapshot _ = Unit

module _ {W : Type 0} ⦃d : Double W⦄ where
  execute_place-WithinLimit :
      (env : Answers W) (e : MakerHedgeEngine W) (a : Action W) (s : SpreadSnapshot W)
      → All (WithinLimit e.config e.hl_position_base s) (execute_place env e a s).sent
  unfolding execute_place limit_blocks
  execute_place-WithinLimit env e a s = ground arith

  execute_cancel-WithinLimit :
      (env : Answers W) (e : MakerHedgeEngine W) (a : Action W) (s : SpreadSnapshot W)
      → All (WithinLimit e.config e.hl_position_base s) (execute_cancel env e a s).sent
  unfolding execute_cancel
  execute_cancel-WithinLimit env e a s = ground arith

  execute_hedge-WithinLimit :
      (env : Answers W) (e : MakerHedgeEngine W) (a : Action W) (s : SpreadSnapshot W)
      → All (WithinLimit e.config e.hl_position_base s) (execute_hedge env e a s).sent
  unfolding execute_hedge
  execute_hedge-WithinLimit env e a s = ground arith

  execute_action-WithinLimit :
      (env : Answers W) (e : MakerHedgeEngine W) (a : Action W) (s : SpreadSnapshot W)
      → All (WithinLimit e.config e.hl_position_base s) (execute_action env e a s).sent
  unfolding execute_action execute_unwind
  execute_action-WithinLimit env e a s = ground (
    arith,
    execute_place-WithinLimit env e a s,
    execute_cancel-WithinLimit env e a s,
    execute_hedge-WithinLimit env e a s,
  )

  run_strategy-WithinLimit :
      (env : Answers W) (now : ℤ) (s : SpreadSnapshot W) (e : MakerHedgeEngine W)
      → All (WithinLimit e.config e.hl_position_base s) (run_strategy env now s e).sent
  unfolding run_strategy
  run_strategy-WithinLimit env now s e =
      let (h, action) = on_market_snapshot e.strategy s now e.hl_position_base in
      elim (Bool-cases (is_blocked e s action)) [
        | inl blocked ↦ rw blocked tt
        | inr free ↦ rw free (execute_action-WithinLimit env (record e { strategy = h }) action s)
      ]

  deferred-WithinLimit :
      (env : Answers W) (e : MakerHedgeEngine W) (now : ℤ) (s : SpreadSnapshot W)
      → All
          (WithinLimit e.config e.hl_position_base s)
          (execute_deferred_hl_action env e now s).sent
  unfolding execute_deferred_hl_action
  deferred-WithinLimit env e now s = elim (Option-cases e.deferred_hl_action) [
    | inl f ↦ rw f tt
    | inr (a, f) ↦ rw f (elim (Bool-cases (too_early e.next_retry_steady_ms now)) [
      | inl early ↦ rw early tt
      | inr due ↦ rw due (
          execute_action-WithinLimit env
            (record e { deferred_hl_action = none; next_retry_steady_ms = none }) a s)
    ])
  ]

  execute_action_keeps :
      (env : Answers W) (e : MakerHedgeEngine W) (a : Action W) (s : SpreadSnapshot W)
      → let e' = (execute_action env e a s).engine in
        (e'.config ≡ e.config) × (e'.hl_position_base ≡ e.hl_position_base)
  unfolding execute_action execute_place execute_cancel execute_hedge execute_unwind
  execute_action_keeps env e a s = ground arith

  deferred_keeps :
      (env : Answers W) (e : MakerHedgeEngine W) (now : ℤ) (s : SpreadSnapshot W)
      → let e' = (execute_deferred_hl_action env e now s).engine in
        (e'.config ≡ e.config) × (e'.hl_position_base ≡ e.hl_position_base)
  unfolding execute_deferred_hl_action
  deferred_keeps env e now s = elim (Option-cases e.deferred_hl_action) [
    | inl f ↦ ground arith
    | inr (a, f) ↦
        let due = record e { deferred_hl_action = none; next_retry_steady_ms = none } in
        ground (arith, execute_action_keeps env due a s)
  ]

  -- Whatever the venues answer, a market tick sends no maker order that adds to a position whose value
  -- at the mid of the tick is at the limit; deferred orders are held to this too.
  pub on_market_data-WithinLimit :
      (env later : Answers W) (e : MakerHedgeEngine W) (now : ℤ)
      → All
          (WithinLimit e.config e.hl_position_base (collect_snapshot e.config env))
          (on_market_data env later e now).sent
  unfolding on_market_data
  on_market_data-WithinLimit env later e now =
      let s = collect_snapshot e.config env in
      let first = execute_deferred_hl_action env e now s in
      let (same_config, same_position) = deferred_keeps env e now s in
      unless_logged-All (WithinLimit e.config e.hl_position_base s) first.logs first
        (run_strategy later now s) (deferred-WithinLimit env e now s)
        (subst₂
          (λ c position.
            All (WithinLimit c position s) (run_strategy later now s first.engine).sent)
          same_config same_position (run_strategy-WithinLimit later now s first.engine))
