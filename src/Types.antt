-- ===== src/Types.antt =====
-- include/arb/types.hpp: the shared types. An `enum class` is a data type, a `struct` a record over
-- the type of doubles, `std::optional` is Option, and an `int64_t` an integer.
use Prim.Native.String.{String}
use hl_maker_lighter_arb_cpp.Common.{ℕ, Bool, true, false, ◌&&◌, ◌||◌, Option, none, if◌then◌else◌}
use hl_maker_lighter_arb_cpp.Common.Int.{ℤ, leb_ℤ}
use hl_maker_lighter_arb_cpp.Double.{Double, lit, ◌+ᵈ◌, ◌/ᵈ◌, ◌<ᵈ◌, ◌≤ᵈ◌}

pub data Direction : Type 0 where
  short_lighter_long_hl long_lighter_short_hl : Direction

-- The tests `a == b` and `a != b` on directions.
abbrev pub eq_direction : Direction → Direction → Bool
eq_direction short_lighter_long_hl short_lighter_long_hl = true
eq_direction long_lighter_short_hl long_lighter_short_hl = true
eq_direction _ _ = false

pub data StrategyState : Type 0 where
  idle pending_hl_maker cancelled_pending_confirm hl_filled_pending_lighter_hedge : StrategyState
  pending_lighter_maker cancelled_pending_lighter_confirm : StrategyState
  lighter_filled_pending_hl_hedge opened unwinding_hl unwinding_lighter error : StrategyState

abbrev pub is_idle : StrategyState → Bool
is_idle idle = true
is_idle _ = false

abbrev pub is_pending_hl_maker : StrategyState → Bool
is_pending_hl_maker pending_hl_maker = true
is_pending_hl_maker _ = false

abbrev pub is_cancelled_pending_confirm : StrategyState → Bool
is_cancelled_pending_confirm cancelled_pending_confirm = true
is_cancelled_pending_confirm _ = false

abbrev pub is_pending_lighter_maker : StrategyState → Bool
is_pending_lighter_maker pending_lighter_maker = true
is_pending_lighter_maker _ = false

abbrev pub is_cancelled_pending_lighter_confirm : StrategyState → Bool
is_cancelled_pending_lighter_confirm cancelled_pending_lighter_confirm = true
is_cancelled_pending_lighter_confirm _ = false

pub data ActionType : Type 0 where
  no_action place_hl_maker cancel_hl_maker place_lighter_maker cancel_lighter_maker : ActionType
  send_lighter_taker_hedge send_hl_taker_hedge : ActionType
  unwind_hl_position unwind_lighter_position : ActionType

pub record Bbo (W : Type 0) : Type 0 where
  pub bid : W
  pub ask : W
  pub quote_age_ms : ℤ

pub record SpreadSnapshot (W : Type 0) : Type 0 where
  pub lighter : Bbo W
  pub hl : Bbo W
  pub cross_spread_bps : W

pub record LighterPositionSnapshot (W : Type 0) : Type 0 where
  pub size : W
  pub avg_entry_price : W
  pub position_value : W

pub record TradeEvent (W : Type 0) : Type 0 where
  pub coin : String
  pub price : W
  pub size : W
  pub is_buy : Bool
  pub timestamp_ns : ℕ
  pub exchange_time_ms : ℕ

pub record StrategyConfig (W : Type 0) : Type 0 where
  pub spread_bps : W
  pub close_spread_bps : W
  pub cancel_band_bps : W
  pub pair_size_usd : W
  pub max_position_usd : W
  pub max_quote_age_ms : ℤ
  pub min_rearm_ms : ℤ

pub record PendingMakerOrder (W : Type 0) : Type 0 where
  pub direction : Direction
  pub is_buy : Bool
  pub price : W
  pub size_base : W
  pub trigger_spread_bps : W
  pub entry_spread_bps : W

pub record OpenHedgePosition (W : Type 0) : Type 0 where
  pub direction : Direction
  pub size_base : W
  pub hl_fill_price : W
  pub lighter_fill_price : W

pub record HedgeIntent (W : Type 0) : Type 0 where
  pub is_ask : Bool
  pub limit_price : W
  pub size_base : W

pub record HlHedgeIntent (W : Type 0) : Type 0 where
  pub is_buy : Bool
  pub limit_price : W
  pub size_base : W

pub record Action (W : Type 0) : Type 0 where
  pub type : ActionType
  pub reason : String
  pub maker_order : Option (PendingMakerOrder W)
  pub hedge_intent : Option (HedgeIntent W)
  pub hl_hedge_intent : Option (HlHedgeIntent W)

-- `Action {}`, which the sources return as `{}`.
abbrev pub no_op : {W : Type 0} → Action W
no_op = record {
  type = no_action;
  reason = "";
  maker_order = none;
  hedge_intent = none;
  hl_hedge_intent = none;
}

module _ {W : Type 0} ⦃d : Double W⦄ where
  unfoldable pub mid : Bbo W → W
  mid b = if (b.bid ≤ᵈ lit 0 0) || (b.ask ≤ᵈ lit 0 0) then lit 0 0 else (b.bid +ᵈ b.ask) /ᵈ lit 2 0

  unfoldable pub valid : SpreadSnapshot W → ℤ → Bool
  valid s max_quote_age_ms =
      (lit 0 0 <ᵈ mid s.lighter)
      && (lit 0 0 <ᵈ mid s.hl)
      && leb_ℤ s.lighter.quote_age_ms max_quote_age_ms
      && leb_ℤ s.hl.quote_age_ms max_quote_age_ms
