-- ===== src/Live/Config.antt =====
-- The configuration of the program from its environment. A variable that is not set is none.
use Prim.Native.String.{String}
use text.Mathlib.Text.{◌==◌ as str_eq}
use hl_maker_lighter_arb_cpp.Common.{Bool, Option, some, if◌then◌else◌}
use hl_maker_lighter_arb_cpp.Common.Int.{pos}
use hl_maker_lighter_arb_cpp.Double.{Double, lit, ◌*ᵈ◌}
use hl_maker_lighter_arb_cpp.Scan.{◌>>=◌, or_else}
use hl_maker_lighter_arb_cpp.Convert.{Conversions}
use hl_maker_lighter_arb_cpp.Engine.Outcome.{EngineConfig}
use hl_maker_lighter_arb_cpp.Risk.Defs.{RiskConfig}

pub data ExecutionPolicy : Type 0 where
  hl_maker_lt_taker lt_maker_hl_taker : ExecutionPolicy

unfoldable pub execution_policy_from_env : String → ExecutionPolicy
execution_policy_from_env value =
    if str_eq value "lt_maker_hl_taker" then lt_maker_hl_taker else hl_maker_lt_taker

unfoldable pub env_or : Option String → String → String
env_or val fallback = or_else val fallback

unfoldable pub dry_run_from_env : Option String → Bool
dry_run_from_env val = str_eq (env_or val "true") "true"

-- The variables that the strategy, the engines and the risk guard are configured by.
pub record Environment : Type 0 where
  pub spread_bps : Option String
  pub close_spread_bps : Option String
  pub cancel_band_bps : Option String
  pub pair_size_usd : Option String
  pub max_position_usd : Option String
  pub dry_run : Option String
  pub hl_order_interval_ms : Option String
  pub lighter_order_interval_ms : Option String
  pub spec_hedge_min_cross_bps : Option String
  pub spec_hedge_min_trade_ratio : Option String

module _ {W : Type 0} ⦃d : Double W⦄ ⦃c : Conversions W⦄ where
  unfoldable pub env_double : Option String → W → W
  env_double val fallback = or_else (val >>= (λ v. c.stod v)) fallback

  -- The numbers that are read by `std::stod` without a handler: none is an exception that ends the program.
  unfoldable pub engine_config : Environment → Option (EngineConfig W)
  engine_config env = c.stod (env_or env.hl_order_interval_ms "200") >>= (λ hl_interval.
      c.stod (env_or env.lighter_order_interval_ms "500") >>= (λ lighter_interval.
        c.stod (env_or env.spec_hedge_min_cross_bps "1.0") >>= (λ min_cross.
          c.stod (env_or env.spec_hedge_min_trade_ratio "0.5") >>= (λ min_ratio. some (record {
            strategy = record {
              spread_bps = env_double env.spread_bps (lit 2 0);
              close_spread_bps = env_double env.close_spread_bps (lit 0 0);
              cancel_band_bps = env_double env.cancel_band_bps (lit 5 1);
              pair_size_usd = env_double env.pair_size_usd (lit 25 0);
              max_position_usd = env_double env.max_position_usd (lit 100 0);
              max_quote_age_ms = pos 3000;
              min_rearm_ms = pos 500;
            };
            hl_coin = "HYPE";
            lighter_market_id = pos 24;
            dry_run = dry_run_from_env env.dry_run;
            hl_order_interval_ms = c.to_int hl_interval;
            lighter_order_interval_ms = c.to_int lighter_interval;
            spec_hedge_min_cross_bps = min_cross;
            spec_hedge_min_trade_ratio = min_ratio;
          })))))

  unfoldable pub risk_config : Environment → RiskConfig W
  risk_config env = record {
    max_exposure_usd = env_double env.max_position_usd (lit 100 0) *ᵈ lit 2 0;
    stale_quote_kill_ms = pos 5000;
    max_consecutive_hedge_failures = pos 3;
    max_single_trade_usd = env_double env.pair_size_usd (lit 25 0) *ᵈ lit 2 0;
  }
