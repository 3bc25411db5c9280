-- ===== src/Live/Passes.antt =====
-- Passes of the loop while the fill feed is lost.
use mathlib.Core.Path.{subst, ap₂}
use text.Mathlib.Text.{◌==◌ as str_eq}
use hl_maker_lighter_arb_cpp.Common.{
  ◌≡◌, refl, sym, ap, ◌∙◌, true, false, List, [], ◌∷◌, ◌++◌, All, arith,
}
use hl_maker_lighter_arb_cpp.Double.{Double}
use hl_maker_lighter_arb_cpp.Types.{SpreadSnapshot, TradeEvent}
use hl_maker_lighter_arb_cpp.Exchange.{Answers, Sent}
use hl_maker_lighter_arb_cpp.Engine.HlMaker.State.{MakerHedgeEngine}
use hl_maker_lighter_arb_cpp.Engine.HlMaker.Fill.{HlFill, on_hl_fill}
use hl_maker_lighter_arb_cpp.Engine.HlMaker.TradeEvent.{on_trade_event}
use hl_maker_lighter_arb_cpp.Engine.HlMaker.Rate.{placements, placements-append}
use hl_maker_lighter_arb_cpp.Live.Defs.{Live, Tick}
use hl_maker_lighter_arb_cpp.Live.Queues.{QueuedFill, QueuedTrade, drain_fills, drain_trades, pass}
use hl_maker_lighter_arb_cpp.Live.Outage.{
  IsOut, drained, drain_fills-risk, drain_trades-risk, pass_in_outage,
}

-- What a pass finds: the queues, and what its tick finds.
pub record PassInput (W : Type 0) : Type 0 where
  pub fills : List (QueuedFill W)
  pub trades : List (QueuedTrade W)
  pub finds : Tick W

module _ {W : Type 0} ⦃d : Double W⦄ where
  unfoldable pub passes : Live W → List (PassInput W) → Live W
  passes l [] = l
  passes l (p ∷ ps) = passes (pass l p.fills p.trades p.finds).engine ps

  unfoldable pub passes_sent : Live W → List (PassInput W) → List (Sent W)
  passes_sent l [] = []
  passes_sent l (p ∷ ps) =
      let o = pass l p.fills p.trades p.finds in o.sent ++ passes_sent o.engine ps

  -- The same without the ticks: the queues alone are emptied.
  unfoldable pub drains : Live W → List (PassInput W) → Live W
  drains l [] = l
  drains l (p ∷ ps) = drains (drained l p.fills p.trades).engine ps

  unfoldable pub drains_sent : Live W → List (PassInput W) → List (Sent W)
  drains_sent l [] = []
  drains_sent l (p ∷ ps) = let o = drained l p.fills p.trades in o.sent ++ drains_sent o.engine ps

  placements-on_hl_fill :
      (env : Answers W) (e : MakerHedgeEngine W) (fill : HlFill W) (s : SpreadSnapshot W)
      → placements (on_hl_fill env e fill s).sent ≡ 0
  unfolding on_hl_fill
  placements-on_hl_fill env e fill s = ground arith

  placements-on_trade_event :
      (env : Answers W) (e : MakerHedgeEngine W) (trade : TradeEvent W)
      → placements (on_trade_event env e trade).sent ≡ 0
  unfolding on_trade_event
  placements-on_trade_event env e trade = ground arith

  placements-drain_fills :
      (qs : List (QueuedFill W)) (l : Live W) → placements (drain_fills qs l).sent ≡ 0
  unfolding drain_fills
  placements-drain_fills [] l = refl
  placements-drain_fills (q ∷ qs) l =
      placements-append (on_hl_fill q.env l.engine q.fill q.snapshot).sent _
      ∙ omega (
        arith,
        placements-on_hl_fill q.env l.engine q.fill q.snapshot,
        placements-drain_fills qs
            (record l { engine = (on_hl_fill q.env l.engine q.fill q.snapshot).engine }),
      )

  placements-drain_trades :
      (qs : List (QueuedTrade W)) (l : Live W) → placements (drain_trades qs l).sent ≡ 0
  unfolding drain_trades
  placements-drain_trades [] l = refl
  placements-drain_trades (q ∷ qs) l =
      placements-append (on_trade_event q.env l.engine q.trade).sent _
      ∙ omega (
        arith,
        placements-on_trade_event q.env l.engine q.trade,
        placements-drain_trades qs
            (record l { engine = (on_trade_event q.env l.engine q.trade).engine }),
      )

  placements-drained :
      (l : Live W) (fills : List (QueuedFill W)) (trades : List (QueuedTrade W))
      → placements (drained l fills trades).sent ≡ 0
  placements-drained l fills trades =
      placements-append (drain_fills fills l).sent _
      ∙ omega (
        arith,
        placements-drain_fills fills l,
        placements-drain_trades trades (drain_fills fills l).engine,
      )

  -- Once the kill switch is on for a reason other than stale quotes, and for as long as the fill feed is not
  -- subscribed, the ticks of any number of passes do nothing, whatever the quotes do: what is sent and what
  -- changes is what the engine makes of the fills and trades that are queued for the passes. No maker
  -- order is placed, and the risk guard stays as it is, with the switch on.
  pub outage_passes :
      (l : Live W) (ps : List (PassInput W))
      → IsOut l
      → All (λ p. p.finds.fills_subscribed ≡ false) ps
      → (passes l ps ≡ drains l ps)
        × (passes_sent l ps ≡ drains_sent l ps)
        × (placements (passes_sent l ps) ≡ 0)
        × ((passes l ps).risk ≡ l.risk)
  unfolding passes passes_sent drains drains_sent
  outage_passes l [] out lost = (refl, refl, refl, refl)
  outage_passes l (p ∷ ps) out (here, there) =
      let o = pass l p.fills p.trades p.finds in
      let q = drained l p.fills p.trades in
      let (sends, same) = pass_in_outage l p.fills p.trades p.finds out here in
      let risk : q.engine.risk ≡ l.risk =
        drain_trades-risk p.trades _ ∙ drain_fills-risk p.fills l in
      let (ends, all_sent, none_placed, kept) =
        outage_passes q.engine ps
          (subst
            (λ r.
              (r.kill_switch ≡ true)
              × (str_eq r.kill_switch_reason "stale quotes detected" ≡ false))
            (sym risk) out)
          there in
      (
        ap (λ e. passes e ps) same ∙ ends,
        ap₂ (λ s e. s ++ passes_sent e ps) sends same ∙ ap (λ s. q.sent ++ s) all_sent,
        ap placements (ap₂ (λ s e. s ++ passes_sent e ps) sends same)
            ∙ placements-append q.sent (passes_sent q.engine ps)
            ∙ omega (arith, placements-drained l p.fills p.trades, none_placed),
        ap (λ e. (passes e ps).risk) same ∙ kept ∙ risk,
      )
