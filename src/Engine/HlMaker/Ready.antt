-- ===== src/Engine/HlMaker/Ready.antt =====
-- An engine without an active order, along market data that places none.
use mathlib.Core.Path.{subst}
use hl_maker_lighter_arb_cpp.Common.{
  ◌≡◌, refl, sym, ap, ◌∙◌, none, List, [], ◌∷◌, All, inl, inr, Option-cases, Bool-cases, arith,
}
use hl_maker_lighter_arb_cpp.Common.Int.{ℤ}
use hl_maker_lighter_arb_cpp.Double.{Double}
use hl_maker_lighter_arb_cpp.Types.{
  Action, ActionType, place_hl_maker, cancel_hl_maker, send_lighter_taker_hedge, unwind_hl_position,
  SpreadSnapshot,
}
use hl_maker_lighter_arb_cpp.Strategy.HlMaker.Defs.{on_market_snapshot}
use hl_maker_lighter_arb_cpp.Exchange.{Answers}
use hl_maker_lighter_arb_cpp.Engine.Outcome.{Outcome, EventLog, unless_logged, collect_snapshot}
use hl_maker_lighter_arb_cpp.Engine.HlMaker.State.{
  MakerHedgeEngine, set_hl_position, reset_strategy,
}
use hl_maker_lighter_arb_cpp.Engine.HlMaker.Execute.{
  execute_place, execute_cancel, execute_hedge, execute_unwind, execute_type, execute_action,
}
use hl_maker_lighter_arb_cpp.Engine.HlMaker.MarketData.{
  on_market_data, run_strategy, is_blocked, too_early, execute_deferred_hl_action,
}
use hl_maker_lighter_arb_cpp.Engine.HlMaker.TradeEvent.{on_trade_event}
use hl_maker_lighter_arb_cpp.Engine.HlMaker.Trace.{
  Event, market_data, trade_event, sync_position, handle, handle_all, all_sent,
}
use hl_maker_lighter_arb_cpp.Engine.HlMaker.Rate.{placements, placements-append}
use hl_maker_lighter_arb_cpp.Engine.HlMaker.Stuck.{IsMarket}

-- Still no active order, and as ready as before for the fills of the last one.
pub record Ready {W : Type 0} (e e' : MakerHedgeEngine W) : Type 0 where
  pub no_order : e'.active_hl_oid ≡ none
  pub same_oids : e'.recently_placed_oids ≡ e.recently_placed_oids
  pub same_hedge : e'.speculative_hedge_sent ≡ e.speculative_hedge_sent
  pub same_direction : e'.last_maker_direction ≡ e.last_maker_direction

module _ {W : Type 0} where
  Ready-trans : (e e' e'' : MakerHedgeEngine W) → Ready e e' → Ready e' e'' → Ready e e''
  Ready-trans e e' e'' r s = record {
    no_order = s.no_order;
    same_oids = s.same_oids ∙ r.same_oids;
    same_hedge = s.same_hedge ∙ r.same_hedge;
    same_direction = s.same_direction ∙ r.same_direction;
  }

  Ready-refl : (e : MakerHedgeEngine W) → e.active_hl_oid ≡ none → Ready e e
  Ready-refl e idle_now = record {
    no_order = idle_now;
    same_oids = refl;
    same_hedge = refl;
    same_direction = refl;
  }

module _ {W : Type 0} ⦃d : Double W⦄ where
  execute_place-Ready :
      (env : Answers W) (e : MakerHedgeEngine W) (a : Action W) (s : SpreadSnapshot W)
      → e.active_hl_oid ≡ none
      → let o = execute_place env e a s in placements o.sent ≡ 0 → Ready e o.engine
  unfolding execute_place
  execute_place-Ready env e a s free silent = ground arith

  execute_cancel-Ready :
      (env : Answers W) (e : MakerHedgeEngine W) (a : Action W) (s : SpreadSnapshot W)
      → e.active_hl_oid ≡ none
      → Ready e (execute_cancel env e a s).engine
  unfolding execute_cancel
  execute_cancel-Ready env e a s free = ground arith

  execute_hedge-Ready :
      (env : Answers W) (e : MakerHedgeEngine W) (a : Action W) (s : SpreadSnapshot W)
      → e.active_hl_oid ≡ none
      → Ready e (execute_hedge env e a s).engine
  unfolding execute_hedge
  execute_hedge-Ready env e a s free = ground arith

  execute_type-Ready :
      (t : ActionType) (env : Answers W) (e : MakerHedgeEngine W) (a : Action W)
      (s : SpreadSnapshot W)
      → e.active_hl_oid ≡ none
      → let o = execute_type t env e a s in placements o.sent ≡ 0 → Ready e o.engine
  unfolding execute_type execute_unwind
  execute_type-Ready place_hl_maker env e a s free silent =
      execute_place-Ready env e a s free silent
  execute_type-Ready cancel_hl_maker env e a s free silent = execute_cancel-Ready env e a s free
  execute_type-Ready send_lighter_taker_hedge env e a s free silent =
      execute_hedge-Ready env e a s free
  execute_type-Ready unwind_hl_position env e a s free silent = Ready-refl e free
  execute_type-Ready _ env e a s free silent = Ready-refl e free

  execute_action-Ready :
      (env : Answers W) (e : MakerHedgeEngine W) (a : Action W) (s : SpreadSnapshot W)
      → e.active_hl_oid ≡ none
      → let o = execute_action env e a s in placements o.sent ≡ 0 → Ready e o.engine
  unfolding execute_action
  execute_action-Ready env e a s free silent = execute_type-Ready a.type env e a s free silent

  run_strategy-Ready :
      (env : Answers W) (now : ℤ) (s : SpreadSnapshot W) (e : MakerHedgeEngine W)
      → e.active_hl_oid ≡ none
      → let o = run_strategy env now s e in placements o.sent ≡ 0 → Ready e o.engine
  unfolding run_strategy reset_strategy
  run_strategy-Ready env now s e free silent =
      let (after, action) = on_market_snapshot e.strategy s now e.hl_position_base in
      let decided : MakerHedgeEngine W = record e { strategy = after } in
      elim (Bool-cases (is_blocked e s action)) [
        | inl blocked ↦ rw blocked (Ready-of_strategy e (reset_strategy decided) free)
        | inr goes ↦
            let kept = execute_action-Ready env decided action s free (rw goes at silent) in
            rw goes (Ready-trans e decided _ (Ready-of_strategy e decided free) kept)
      ]
    where
      Ready-of_strategy :
          (e e' : MakerHedgeEngine W)
          → e.active_hl_oid ≡ none
          → Ready e (record e { strategy = e'.strategy })
      Ready-of_strategy e e' free = record {
        no_order = free;
        same_oids = refl;
        same_hedge = refl;
        same_direction = refl;
      }

  deferred-Ready :
      (env : Answers W) (e : MakerHedgeEngine W) (now : ℤ) (s : SpreadSnapshot W)
      → e.active_hl_oid ≡ none
      → let o = execute_deferred_hl_action env e now s in placements o.sent ≡ 0 → Ready e o.engine
  unfolding execute_deferred_hl_action
  deferred-Ready env e now s free silent = elim (Option-cases e.deferred_hl_action) [
    | inl nothing ↦ ground arith
    | inr (a, f) ↦ elim (Bool-cases (too_early e.next_retry_steady_ms now)) [
      | inl early ↦ ground arith
      | inr due ↦
          let cleared : MakerHedgeEngine W = record e {
            deferred_hl_action = none;
            next_retry_steady_ms = none;
          } in
          let shape : execute_deferred_hl_action env e now s ≡ execute_action env cleared a s =
            rw (f, due, execute_deferred_hl_action) refl in
          let kept =
            execute_action-Ready env cleared a s free
              (ap (λ o. placements o.sent) (sym shape) ∙ silent) in
          subst (λ o. Ready e o.engine) (sym shape)
            (record {
              no_order = kept.no_order;
              same_oids = kept.same_oids;
              same_hedge = kept.same_hedge;
              same_direction = kept.same_direction;
            })
    ]
  ]

  unless_logged-Ready :
      (e : MakerHedgeEngine W) (logs : List (EventLog W)) (first : Outcome W (MakerHedgeEngine W))
      (rest : MakerHedgeEngine W → Outcome W (MakerHedgeEngine W))
      → (placements first.sent ≡ 0 → Ready e first.engine)
      → ((e' : MakerHedgeEngine W)
          → e'.active_hl_oid ≡ none
          → placements (rest e').sent ≡ 0
          → Ready e' (rest e').engine)
      → let o = unless_logged logs first rest in placements o.sent ≡ 0 → Ready e o.engine
  unfolding unless_logged
  unless_logged-Ready e [] first rest p q silent =
      let both = placements-append first.sent (rest first.engine).sent in
      let start = p (omega (arith, both, silent)) in
      Ready-trans e first.engine (rest first.engine).engine start
        (q first.engine start.no_order (omega (arith, both, silent)))
  unless_logged-Ready e (_ ∷ _) first rest p q silent = p silent

  handle-Ready :
      (e : MakerHedgeEngine W) (v : Event W)
      → IsMarket v
      → e.active_hl_oid ≡ none
      → placements (handle e v).sent ≡ 0
      → Ready e (handle e v).engine
  unfolding handle set_hl_position on_market_data on_trade_event
  handle-Ready e (market_data env later now) m free silent =
      let s = collect_snapshot e.config env in
      let first = execute_deferred_hl_action env e now s in
      unless_logged-Ready e first.logs first (run_strategy later now s)
        (deferred-Ready env e now s free)
        (λ e' free' silent'. run_strategy-Ready later now s e' free' silent') silent
  handle-Ready e (trade_event env trade) m free silent = ground arith
  handle-Ready e (sync_position base) m free silent = record {
    no_order = free;
    same_oids = refl;
    same_hedge = refl;
    same_direction = refl;
  }
  handle-Ready e _ m free silent = absurd m

  pub handle_all-Ready :
      (e : MakerHedgeEngine W) (vs : List (Event W))
      → All IsMarket vs
      → e.active_hl_oid ≡ none
      → placements (all_sent e vs) ≡ 0
      → Ready e (handle_all e vs)
  unfolding handle_all all_sent
  handle_all-Ready e [] m free silent = Ready-refl e free
  handle_all-Ready e (v ∷ vs) (m, ms) free silent =
      let both = placements-append (handle e v).sent (all_sent (handle e v).engine vs) in
      let first = handle-Ready e v m free (omega (arith, both, silent)) in
      Ready-trans e (handle e v).engine (handle_all (handle e v).engine vs) first
        (handle_all-Ready (handle e v).engine vs ms first.no_order (omega (arith, both, silent)))
