-- ===== src/Engine/HlMaker/State.antt =====
-- The state of MakerHedgeEngine, and its small private methods. The latency trace is left out: it is
-- only written to log lines and to the performance counters.
use Prim.Native.String.{String}
use text.Mathlib.Text.{◌==◌ as str_eq}
use hl_maker_lighter_arb_cpp.Common.{
  ℕ, Bool, false, not, ◌&&◌, ◌||◌, Option, none, some, List, [], ◌∷◌, if◌then◌else◌,
}
use hl_maker_lighter_arb_cpp.Common.Int.{ℤ, pos, ◌+ℤ◌, ◌-ℤ◌, leb_ℤ}
use hl_maker_lighter_arb_cpp.Double.{Double, lit, ◌+ᵈ◌, ◌*ᵈ◌, ◌<ᵈ◌, ◌≤ᵈ◌}
use hl_maker_lighter_arb_cpp.Types.{
  Direction, short_lighter_long_hl, eq_direction, Action, PendingMakerOrder, SpreadSnapshot, mid,
}
use hl_maker_lighter_arb_cpp.Strategy.Pricing.{Created, created, invalid_argument}
use hl_maker_lighter_arb_cpp.Strategy.HlMaker.Defs.{HlMakerLighterHedger, construct, reset}
use hl_maker_lighter_arb_cpp.Engine.Outcome.{EngineConfig}

pub record MakerHedgeEngine (W : Type 0) : Type 0 where
  pub config : EngineConfig W
  pub strategy : HlMakerLighterHedger W
  pub active_hl_oid : Option String
  pub recently_placed_oids : List String
  pub last_maker_direction : Direction
  pub hl_position_base : W
  pub speculative_hedge_sent : Bool
  pub speculative_hedge_size : W
  pub speculative_hedge_oid : String
  pub maker_order_placed_epoch_ms : ℕ
  pub last_hl_place_ms : ℤ
  pub last_hl_cancel_ms : ℤ
  pub last_lighter_api_ms : ℤ
  pub deferred_hl_action : Option (Action W)
  pub next_retry_steady_ms : Option ℤ
  -- The function-local `static int skip_count` of `on_trade_event`.
  pub skip_count : ℕ

-- `std::unordered_set<std::string>`
unfoldable pub contains : List String → String → Bool
contains [] oid = false
contains (o ∷ os) oid = str_eq o oid || contains os oid

unfoldable pub erase : List String → String → List String
erase [] oid = []
erase (o ∷ os) oid = if str_eq o oid then erase os oid else o ∷ erase os oid

module _ {W : Type 0} ⦃d : Double W⦄ where
  with_strategy : EngineConfig W → Created (HlMakerLighterHedger W) → Created (MakerHedgeEngine W)
  with_strategy c (invalid_argument what) = invalid_argument what
  with_strategy c (created h) = created (record {
    config = c;
    strategy = h;
    active_hl_oid = none;
    recently_placed_oids = [];
    last_maker_direction = short_lighter_long_hl;
    hl_position_base = lit 0 0;
    speculative_hedge_sent = false;
    speculative_hedge_size = lit 0 0;
    speculative_hedge_oid = "";
    maker_order_placed_epoch_ms = 0;
    last_hl_place_ms = pos 0;
    last_hl_cancel_ms = pos 0;
    last_lighter_api_ms = pos 0;
    deferred_hl_action = none;
    next_retry_steady_ms = none;
    skip_count = 0;
  })

  unfoldable pub construct_engine : EngineConfig W → Created (MakerHedgeEngine W)
  unfolding with_strategy
  construct_engine c = with_strategy c (construct c.strategy)

  unfoldable pub position_limit_reached : MakerHedgeEngine W → W → Bool
  position_limit_reached e mid_price =
      if mid_price ≤ᵈ lit 0 0
      then false
      else e.config.strategy.max_position_usd ≤ᵈ (d.fabs e.hl_position_base *ᵈ mid_price)

  -- `would_increase` for an order that buys, or does not buy, on Hyperliquid.
  unfoldable pub would_increase : W → Bool → Bool
  would_increase hl_position_base would_buy_hl =
      ((lit 0 0 ≤ᵈ hl_position_base) && would_buy_hl)
      || ((hl_position_base <ᵈ lit 0 0) && not would_buy_hl)

  -- The guard at the head of the `PlaceHlMaker` case of `execute_action`.
  unfoldable pub limit_blocks : MakerHedgeEngine W → PendingMakerOrder W → SpreadSnapshot W → Bool
  limit_blocks e order snapshot =
      (lit 0 0 <ᵈ mid snapshot.hl)
      && (e.config.strategy.max_position_usd ≤ᵈ (d.fabs e.hl_position_base *ᵈ mid snapshot.hl))
      && would_increase e.hl_position_base order.is_buy

  unfoldable pub reset_strategy : MakerHedgeEngine W → MakerHedgeEngine W
  unfolding reset
  reset_strategy e = record e { strategy = reset e.strategy }

  -- `hl_position_base_ += hl_is_buy ? fill_size_base : -fill_size_base`
  unfoldable pub add_fill : MakerHedgeEngine W → W → MakerHedgeEngine W
  add_fill e fill_size_base = record e {
    hl_position_base =
        e.hl_position_base
        +ᵈ (if eq_direction e.last_maker_direction short_lighter_long_hl
            then fill_size_base
            else d.neg fill_size_base);
  }

  -- The three assignments that drop the record of a speculative hedge.
  unfoldable pub clear_speculative : MakerHedgeEngine W → MakerHedgeEngine W
  clear_speculative e = record e {
    speculative_hedge_sent = false;
    speculative_hedge_size = lit 0 0;
    speculative_hedge_oid = "";
  }

  -- `set_hl_position`
  unfoldable pub set_hl_position : MakerHedgeEngine W → W → MakerHedgeEngine W
  set_hl_position e base_size = record e { hl_position_base = base_size }

module _ {W : Type 0} where
  unfoldable pub hl_place_retry_at_ms : MakerHedgeEngine W → ℤ → Option ℤ
  hl_place_retry_at_ms e now_ms =
      if leb_ℤ e.config.hl_order_interval_ms (now_ms -ℤ e.last_hl_place_ms)
      then none
      else some (e.last_hl_place_ms +ℤ e.config.hl_order_interval_ms)

  unfoldable pub hl_cancel_retry_at_ms : MakerHedgeEngine W → ℤ → Option ℤ
  hl_cancel_retry_at_ms e now_ms =
      if leb_ℤ e.config.hl_order_interval_ms (now_ms -ℤ e.last_hl_cancel_ms)
      then none
      else some (e.last_hl_cancel_ms +ℤ e.config.hl_order_interval_ms)

  -- An action that comes too early is kept for later.
  unfoldable pub defer : MakerHedgeEngine W → Action W → ℤ → MakerHedgeEngine W
  defer e action retry_at = record e {
    deferred_hl_action = some action;
    next_retry_steady_ms = some retry_at;
  }
