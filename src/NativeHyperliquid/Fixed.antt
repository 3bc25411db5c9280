-- ===== src/NativeHyperliquid/Fixed.antt =====
-- Formats for `Fixed`, for the tests and the witnesses: `log_10` gives the whole part from 1 on.
use Prim.Native.String.{String, len, ◌++◌, slice}
use hl_maker_lighter_arb_cpp.Common.{ℕ, ◌+◌, ◌-◌, ◌*◌, ◌/◌, ◌%◌, ◌^◌}
use hl_maker_lighter_arb_cpp.Common.Int.{pos, pos_part}
use hl_maker_lighter_arb_cpp.Common.Text.{to_string, decimal}
use hl_maker_lighter_arb_cpp.Double.Fixed.{Fixed}
use hl_maker_lighter_arb_cpp.NativeHyperliquid.Client.{Formats}

-- The digits of a number below 10^6, with zeros in front.
unfoldable pub six_digits : ℕ → String
unfolding to_string decimal
six_digits n = slice (to_string (pos (1_000_000 + n))) 1 7

unfoldable pub format : Fixed → String
unfolding six_digits to_string decimal
format v =
    to_string (pos (pos_part v / 1_000_000))
    ++ ("." ++ (six_digits (pos_part v % 1_000_000) ++ "00"))

instance abbrev pub fixed_formats : Formats Fixed
fixed_formats = record {
  fixed_8 = format;
  round = λ v. pos ((pos_part v + 500_000) / 1_000_000 * 1_000_000);
  floor = λ v. v;
  log_10 = λ v. pos ((len (to_string (pos (pos_part v / 1_000_000))) - 1) * 1_000_000);
  pow_10 = λ v. pos (10 ^ (pos_part v / 1_000_000) * 1_000_000);
}
