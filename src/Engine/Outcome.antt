-- ===== src/Engine/Outcome.antt =====
-- What one run of an engine's handler leaves behind, and what both engines share.
use Prim.Native.String.{String}
use hl_maker_lighter_arb_cpp.Common.{All, All-append, ◌∷◌, ℕ, Bool, List, [], ◌++◌, if◌then◌else◌}
use hl_maker_lighter_arb_cpp.Common.Int.{ℤ}
use hl_maker_lighter_arb_cpp.Double.{Double, lit, ◌+ᵈ◌, ◌-ᵈ◌, ◌*ᵈ◌, ◌/ᵈ◌, ◌<ᵈ◌}
use hl_maker_lighter_arb_cpp.Types.{StrategyConfig, SpreadSnapshot, mid}
use hl_maker_lighter_arb_cpp.Exchange.{Answers, Sent}

pub record EngineConfig (W : Type 0) : Type 0 where
  pub strategy : StrategyConfig W
  pub hl_coin : String
  pub lighter_market_id : ℤ
  pub dry_run : Bool
  pub hl_order_interval_ms : ℤ
  pub lighter_order_interval_ms : ℤ
  pub spec_hedge_min_cross_bps : W
  pub spec_hedge_min_trade_ratio : W

-- `EventLog.message`: a constructor for each kind of line, with what it prints. The timings of the
-- lines that begin with "perf" are left out.
pub data EventLog (W : Type 0) : Type 0 where
  speculative_reconciled : W → W → EventLog W
  speculative_correction : W → W → W → Bool → EventLog W
  speculative_overshoot_unwind : W → W → W → Bool → String → EventLog W
  speculative_cancel_unwind : W → Bool → String → EventLog W
  speculative_success : W → W → W → W → String → EventLog W
  speculative_failed : W → W → String → EventLog W
  speculative_debug : ℕ → W → Bool → W → EventLog W
  trade_complete : W → W → W → W → String → W → W → EventLog W
  perf_trade : String → EventLog W
  perf_cancel : String → EventLog W
  hedge_unconfirmed : W → W → String → EventLog W
  hedge_failed : W → W → String → EventLog W
  hl_unwind : Bool → W → W → EventLog W
  placed_hl_maker : String → EventLog W
  hl_placement_failed : String → EventLog W
  cancel_without_oid : EventLog W
  cancelled_hl_maker : String → EventLog W
  hl_cancel_failed : String → EventLog W
  cancel_failed_keeping_oid : EventLog W
  lighter_hedge_confirmed : String → W → W → W → W → EventLog W
  lighter_hedge_not_confirmed : Bool → String → W → EventLog W
  unwound_naked_hl : EventLog W
  hl_unwind_failed : String → EventLog W
  placed_lighter_maker : ℤ → EventLog W
  lighter_placement_failed : String → EventLog W
  cancel_without_lighter_order : EventLog W
  cancelled_lighter_maker : ℤ → EventLog W
  lighter_cancel_failed : String → EventLog W
  perf_lighter_cancel : ℤ → EventLog W
  hl_hedge_complete : W → W → W → W → W → EventLog W
  perf_lighter_trade : ℤ → EventLog W
  hl_hedge_failed : String → EventLog W
  lighter_unwind : Bool → String → EventLog W
  unwound_naked_lighter : EventLog W
  lighter_unwind_failed : String → EventLog W

-- include/arb/journal.hpp: the columns of a trade, without those that hold times.
pub record JournalEntry (W : Type 0) : Type 0 where
  pub type : String
  pub hedge_status : String
  pub hl_side : String
  pub hl_px : W
  pub hl_sz : W
  pub hl_fee : W
  pub lt_fill_px : W
  pub lt_sz : W
  pub lt_fee : W
  pub spread_bps : W
  pub hl_oid : String
  pub lt_tx : String
  pub unwind_fill_px : W
  pub unwind_fill_sz : W
  pub failure_reason : String

-- The engine after a handler, the calls that it made in order, the lines that it returned and the
-- entries that it gave to the journal.
pub record Outcome (W : Type 0) (E : Type 0) : Type 0 where
  pub engine : E
  pub sent : List (Sent W)
  pub logs : List (EventLog W)
  pub journal : List (JournalEntry W)

abbrev pub quiet : {W E : Type 0} → E → Outcome W E
quiet e = record { engine = e; sent = []; logs = []; journal = [] }

-- A second part of a handler runs on, after a first part that logged nothing.
abbrev pub and_then : {W E : Type 0} → Outcome W E → (E → Outcome W E) → Outcome W E
and_then o f =
    let next = f o.engine in
    record {
      engine = next.engine;
      sent = o.sent ++ next.sent;
      logs = o.logs ++ next.logs;
      journal = o.journal ++ next.journal;
    }

-- A handler goes on after a first part exactly if that part logged nothing.
unfoldable pub unless_logged :
    {W E : Type 0} → List (EventLog W) → Outcome W E → (E → Outcome W E) → Outcome W E
unless_logged [] first rest = and_then first rest
unless_logged (_ ∷ _) first rest = first

pub unless_logged-All :
    {W E : Type 0} (P : Sent W → Type 0) (logs : List (EventLog W)) (first : Outcome W E)
    (rest : E → Outcome W E)
    → All P first.sent
    → All P (rest first.engine).sent
    → All P (unless_logged logs first rest).sent
unfolding unless_logged
unless_logged-All P [] first rest h k = All-append P first.sent _ h k
unless_logged-All P (_ ∷ _) first rest h k = h

module _ {W : Type 0} ⦃d : Double W⦄ where
  unfoldable pub collect_snapshot : EngineConfig W → Answers W → SpreadSnapshot W
  collect_snapshot c env =
      let hl_bbo = env.hl_get_bbo c.hl_coin in
      let lighter_bbo = env.lighter_get_bbo c.lighter_market_id in
      let hl_mid = mid hl_bbo in
      let lighter_mid = mid lighter_bbo in
      let avg_mid = (hl_mid +ᵈ lighter_mid) /ᵈ lit 2 0 in
      record {
        lighter = lighter_bbo;
        hl = hl_bbo;
        cross_spread_bps =
            if lit 0 0 <ᵈ avg_mid
            then ((lighter_mid -ᵈ hl_mid) /ᵈ avg_mid) *ᵈ lit 10000 0
            else lit 0 0;
      }

  -- A taker's limit price on Lighter: `bps` below the mid to sell, above it to buy.
  abbrev pub slipped : Bool → W → ℕ → W
  slipped is_ask lighter_mid bps =
      if is_ask
      then lighter_mid *ᵈ (lit 1 0 -ᵈ (lit bps 0 /ᵈ lit 10000 0))
      else lighter_mid *ᵈ (lit 1 0 +ᵈ (lit bps 0 /ᵈ lit 10000 0))
