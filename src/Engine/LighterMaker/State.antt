-- ===== src/Engine/LighterMaker/State.antt =====
-- The state of LighterMakerTakerEngine, and its small private methods. Its latency trace is left out, as
-- is `lighter_position_base_`, which no method reads or writes.
use hl_maker_lighter_arb_cpp.Common.{Option, none, some, if◌then◌else◌}
use hl_maker_lighter_arb_cpp.Common.Int.{ℤ, pos, ◌+ℤ◌, ◌-ℤ◌, leb_ℤ}
use hl_maker_lighter_arb_cpp.Double.{Double}
use hl_maker_lighter_arb_cpp.Types.{Direction, short_lighter_long_hl, Action}
use hl_maker_lighter_arb_cpp.Strategy.Pricing.{Created, created, invalid_argument}
use hl_maker_lighter_arb_cpp.Strategy.LighterMaker.Defs.{LighterMakerHlHedger, construct, reset}
use hl_maker_lighter_arb_cpp.Engine.Outcome.{EngineConfig}

pub record LighterMakerTakerEngine (W : Type 0) : Type 0 where
  pub config : EngineConfig W
  pub strategy : LighterMakerHlHedger W
  pub active_lighter_order_index : Option ℤ
  pub active_lighter_client_order_index : Option ℤ
  pub last_maker_direction : Direction
  pub last_lighter_place_ms : ℤ
  pub last_lighter_cancel_ms : ℤ
  pub deferred_lighter_action : Option (Action W)
  pub next_retry_steady_ms : Option ℤ

module _ {W : Type 0} ⦃d : Double W⦄ where
  with_lighter_strategy :
      EngineConfig W → Created (LighterMakerHlHedger W) → Created (LighterMakerTakerEngine W)
  with_lighter_strategy c (invalid_argument what) = invalid_argument what
  with_lighter_strategy c (created h) = created (record {
    config = c;
    strategy = h;
    active_lighter_order_index = none;
    active_lighter_client_order_index = none;
    last_maker_direction = short_lighter_long_hl;
    last_lighter_place_ms = pos 0;
    last_lighter_cancel_ms = pos 0;
    deferred_lighter_action = none;
    next_retry_steady_ms = none;
  })

  unfoldable pub construct_lighter_engine : EngineConfig W → Created (LighterMakerTakerEngine W)
  unfolding with_lighter_strategy
  construct_lighter_engine c = with_lighter_strategy c (construct c.strategy)

  -- The order is done with: its indices are forgotten and the strategy starts anew.
  unfoldable pub retire_lighter : LighterMakerTakerEngine W → LighterMakerTakerEngine W
  unfolding reset
  retire_lighter e = record e {
    active_lighter_order_index = none;
    active_lighter_client_order_index = none;
    strategy = reset e.strategy;
  }

module _ {W : Type 0} where
  unfoldable pub lighter_place_retry_at_ms : LighterMakerTakerEngine W → ℤ → Option ℤ
  lighter_place_retry_at_ms e now_ms =
      if leb_ℤ e.config.lighter_order_interval_ms (now_ms -ℤ e.last_lighter_place_ms)
      then none
      else some (e.last_lighter_place_ms +ℤ e.config.lighter_order_interval_ms)

  unfoldable pub lighter_cancel_retry_at_ms : LighterMakerTakerEngine W → ℤ → Option ℤ
  lighter_cancel_retry_at_ms e now_ms =
      if leb_ℤ e.config.lighter_order_interval_ms (now_ms -ℤ e.last_lighter_cancel_ms)
      then none
      else some (e.last_lighter_cancel_ms +ℤ e.config.lighter_order_interval_ms)

  -- An action that comes too early is kept for later.
  unfoldable pub defer_lighter :
      LighterMakerTakerEngine W → Action W → ℤ → LighterMakerTakerEngine W
  defer_lighter e action retry_at = record e {
    deferred_lighter_action = some action;
    next_retry_steady_ms = some retry_at;
  }
