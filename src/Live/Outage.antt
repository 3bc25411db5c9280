-- ===== src/Live/Outage.antt =====
-- The loop while the fill feed is lost, and when it is back.
use Prim.Native.Char.{code}
use Prim.Native.String.{String, ◌++◌ as append}
use Prim.Native.String.append
use mathlib.Core.List.{append-nil}
use text.Mathlib.Text.{◌==◌ as str_eq}
use text.Mathlib.TextEquality.{eq_iff}
use hl_maker_lighter_arb_cpp.Common.{
  ◌≡◌, refl, sym, ap, ◌∙◌, true, false, Bool-cases, inl, inr, Option, none, some, List, [], ◌∷◌,
  ◌++◌, arith,
}
use hl_maker_lighter_arb_cpp.Double.{Double, lit, ◌-ᵈ◌, ◌<ᵈ◌}
use hl_maker_lighter_arb_cpp.Types.{TradeEvent, PendingMakerOrder, valid}
use hl_maker_lighter_arb_cpp.Exchange.{Answers, hl_cancel, lighter_ioc}
use hl_maker_lighter_arb_cpp.Risk.Defs.{activate_kill_switch}
use hl_maker_lighter_arb_cpp.Scan.{or_else}
use hl_maker_lighter_arb_cpp.Convert.{Conversions}
use hl_maker_lighter_arb_cpp.Engine.Outcome.{Outcome, and_then, collect_snapshot}
use hl_maker_lighter_arb_cpp.Engine.HlMaker.State.{MakerHedgeEngine}
use hl_maker_lighter_arb_cpp.Engine.HlMaker.TradeEvent.{
  on_trade_event, speculative_request, is_stale_trade, crosses_price, is_too_small,
}
use hl_maker_lighter_arb_cpp.Live.Defs.{Live, Tick, tick, on_disconnect, is_feed_reason, check_feed}
use hl_maker_lighter_arb_cpp.Live.KillSwitch.{tick_in_outage}
use hl_maker_lighter_arb_cpp.Live.Position.{HttpResponse, read_hl_position, query_hl_position}
use hl_maker_lighter_arb_cpp.Live.Queues.{QueuedFill, QueuedTrade, drain_fills, drain_trades, pass}

-- The switch is on, and fresh quotes do not turn it off.
abbrev pub IsOut : {W : Type 0} → Live W → Type 0
IsOut l =
    (l.risk.kill_switch ≡ true) × (str_eq l.risk.kill_switch_reason "stale quotes detected" ≡ false)

-- The reason of a lost connection is not the one of stale quotes: they begin with other letters.
not_stale :
    (reason : String)
    → str_eq (append "fill feed disconnected: " reason) "stale quotes detected" ≡ false
not_stale reason =
    elim (Bool-cases (str_eq (append "fill feed disconnected: " reason) "stale quotes detected")) [
      | inl same ↦ absurd (
          first_letter
            (sym (append.cons "f" "ill feed disconnected: " reason) ∙ (eq_iff _ _).0 same))
      | inr other ↦ other
    ]
  where
    first_letter :
        String.◌∷◌ "f" (append "ill feed disconnected: " reason) ≡ "stale quotes detected" → ⊥
    first_letter e = let same : code "f" ≡ code "s" = cc (e) in omega (arith, same)

-- A trade for which the resting order is hedged ahead.
pub record IsCrossed {W : Type 0} ⦃d : Double W⦄ (env : Answers W) (e : MakerHedgeEngine W)
    (trade : TradeEvent W) (order : PendingMakerOrder W) : Type 0 where
  pub fresh : e.speculative_hedge_sent ≡ false
  pub recent : is_stale_trade e trade ≡ false
  pub crosses : crosses_price e trade order ≡ true
  pub large : is_too_small e trade order ≡ false
  pub good : valid (collect_snapshot e.config env) e.config.strategy.max_quote_age_ms ≡ true

module _ {W : Type 0} ⦃d : Double W⦄ where
  pub drain_fills-risk :
      (qs : List (QueuedFill W)) (l : Live W) → (drain_fills qs l).engine.risk ≡ l.risk
  unfolding drain_fills
  drain_fills-risk [] l = refl
  drain_fills-risk (q ∷ qs) l = drain_fills-risk qs _

  pub drain_trades-risk :
      (qs : List (QueuedTrade W)) (l : Live W) → (drain_trades qs l).engine.risk ≡ l.risk
  unfolding drain_trades
  drain_trades-risk [] l = refl
  drain_trades-risk (q ∷ qs) l = drain_trades-risk qs _

  abbrev pub drained : Live W → List (QueuedFill W) → List (QueuedTrade W) → Outcome W (Live W)
  drained l fills trades = and_then (drain_fills fills l) (drain_trades trades)

  -- While the fill feed is lost and the switch is on for it, a pass still hands every queued fill and trade
  -- to the engine, and does nothing else: what is sent and what changes is what the engine makes of these.
  pub pass_in_outage :
      (l : Live W) (fills : List (QueuedFill W)) (trades : List (QueuedTrade W)) (t : Tick W)
      → IsOut l
      → t.fills_subscribed ≡ false
      → let o = pass l fills trades t in
        (o.sent ≡ (drained l fills trades).sent) × (o.engine ≡ (drained l fills trades).engine)
  unfolding pass
  pass_in_outage l fills trades t (on, reason) lost =
      (ap (λ s. (drained l fills trades).sent ++ s) silent ∙ append-nil _, same)
    where
      next : Live W
      next = (drained l fills trades).engine

      risk : next.risk ≡ l.risk
      risk = drain_trades-risk trades _ ∙ drain_fills-risk fills l

      halted : ((tick next t).engine ≡ next) × ((tick next t).sent ≡ [])
      halted =
          tick_in_outage next t (ap (λ r. r.kill_switch) risk ∙ on)
            (ap (λ r. str_eq r.kill_switch_reason "stale quotes detected") risk ∙ reason) lost

      same : (tick next t).engine ≡ next
      same = halted.0

      silent : (tick next t).sent ≡ []
      silent = halted.1

  -- The engine on a trade that it hedges ahead, whatever the answer.
  hedges_ahead :
      (env : Answers W) (e : MakerHedgeEngine W) (trade : TradeEvent W) {oid : String}
      {order : PendingMakerOrder W}
      → e.active_hl_oid ≡ some oid
      → e.strategy.pending_maker ≡ some order
      → IsCrossed env e trade order
      → (on_trade_event env e trade).sent
        ≡ lighter_ioc (speculative_request e (collect_snapshot e.config env) order) ∷ []
  unfolding on_trade_event
  hedges_ahead env e trade rests pending crossed =
      let fresh = crossed.fresh in
      let recent = crossed.recent in
      let crosses = crossed.crosses in
      let large = crossed.large in let good = crossed.good in ground arith

  -- The lost feed cancels the resting order at Hyperliquid, but the engine keeps it: while the switch is
  -- on, a public trade through the price of the cancelled order is still hedged ahead on Lighter.
  pub cancelled_order_hedged_ahead :
      (l : Live W) (reason : String) (q : QueuedTrade W) (t : Tick W) {oid : String}
      {order : PendingMakerOrder W}
      → l.risk.kill_switch ≡ false
      → l.engine.active_hl_oid ≡ some oid
      → l.engine.strategy.pending_maker ≡ some order
      → IsCrossed q.env l.engine q.trade order
      → t.fills_subscribed ≡ false
      → let lost = on_disconnect l reason in
        (lost.sent ≡ hl_cancel "HYPE" oid l.dry_run ∷ [])
        × ((pass lost.engine [] (q ∷ []) t).sent
            ≡ lighter_ioc
                (speculative_request l.engine (collect_snapshot l.engine.config q.env) order)
              ∷ [])
  unfolding on_disconnect drain_fills drain_trades
  cancelled_order_hedged_ahead l reason q t {oid} {order} off rests pending crossed lost = rw off (
    rw rests refl,
    (pass_in_outage killed [] (q ∷ []) t (refl, not_stale reason) lost).0
        ∙ append-nil _
        ∙ hedges_ahead q.env l.engine q.trade rests pending crossed,
  )
    where
      killed : Live W
      killed = record l {
        risk = activate_kill_switch l.risk (append "fill feed disconnected: " reason);
      }

module _ {W : Type 0} ⦃d : Double W⦄ ⦃c : Conversions W⦄ where
  -- A query of the position that fails (no answer, another status than 200, or a body without the coin's
  -- position) counts as a position of 0: once the fill feed is back, the switch goes off and the engine
  -- forgets a position that is further from 0 than the tolerance of 0.001, without a word to a venue.
  pub failed_query_forgets_position :
      (l : Live W) (t : Tick W) (response : Option HttpResponse)
      → l.risk.kill_switch ≡ true
      → is_feed_reason l.risk.kill_switch_reason ≡ true
      → t.fills_subscribed ≡ true
      → t.actual_position ≡ query_hl_position response "HYPE"
      → read_hl_position {W = W} response "HYPE" ≡ none
      → lit 1 3 <ᵈ d.fabs (lit 0 0 -ᵈ l.engine.hl_position_base) ≡ true
      → let o = check_feed l t in
        (o.engine.engine.hl_position_base ≡ lit 0 0)
        × (o.engine.risk.kill_switch ≡ false)
        × (o.sent ≡ [])
  unfolding check_feed query_hl_position
  failed_query_forgets_position l t response on reason back asked failed far =
      rw (back, on, reason) (rw (zero) (rw (far) (refl, refl, refl)))
    where
      zero : t.actual_position ≡ lit 0 0
      zero = asked ∙ ap (λ found. or_else found (lit 0 0)) failed
