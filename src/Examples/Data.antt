-- ===== src/Examples/Data.antt =====
-- A market, configurations and venues for the examples, in millionths.
use hl_maker_lighter_arb_cpp.Common.{ℕ}
use hl_maker_lighter_arb_cpp.Common.Int.{pos}
use hl_maker_lighter_arb_cpp.Double.{lit}
use hl_maker_lighter_arb_cpp.Double.Fixed.{Fixed, fixed_double}
use hl_maker_lighter_arb_cpp.Types.{Bbo, SpreadSnapshot, StrategyConfig}

-- n / 10^k as a `double`.
abbrev pub amount : ℕ → ℕ → Fixed
amount n k = lit n k

abbrev pub config : StrategyConfig Fixed
config = record {
  spread_bps = amount 2 0;
  close_spread_bps = amount 0 0;
  cancel_band_bps = amount 5 1;
  pair_size_usd = amount 25 0;
  max_position_usd = amount 100 0;
  max_quote_age_ms = pos 1500;
  min_rearm_ms = pos 500;
}

abbrev pub quote : ℕ → ℕ → Bbo Fixed
quote bid ask = record { bid = amount bid 2; ask = amount ask 2; quote_age_ms = pos 20 }

-- Lighter trades ten basis points above Hyperliquid,
abbrev pub wide : SpreadSnapshot Fixed
wide = record { lighter = quote 10005 10007; hl = quote 9995 9997; cross_spread_bps = amount 10 0 }

-- or one.
abbrev pub narrow : SpreadSnapshot Fixed
narrow = record { lighter = quote 9997 9998; hl = quote 9996 9997; cross_spread_bps = amount 1 0 }

abbrev pub nought : Fixed
nought = amount 0 0
