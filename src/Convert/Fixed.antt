-- ===== src/Convert/Fixed.antt =====
-- Conversions for `Fixed`, for the tests and the witnesses: `stod` reads digits, and a point with more.
use Prim.Native.String.{String, len}
use text.Mathlib.Text.{starts_with}
use hl_maker_lighter_arb_cpp.Common.{
  ℕ, ◌+◌, ◌-◌, ◌*◌, ◌/◌, ◌^◌, Option, none, some, ◌==◌, if◌then◌else◌,
}
use hl_maker_lighter_arb_cpp.Common.Int.{ℤ, pos, pos_part, neg_part, sub_ℕ}
use hl_maker_lighter_arb_cpp.Double.Fixed.{Fixed}
use hl_maker_lighter_arb_cpp.Scan.{span, is_digit, digits_value}
use hl_maker_lighter_arb_cpp.Convert.{Conversions}
use hl_maker_lighter_arb_cpp.Scan

abbrev fraction : String → ℕ
fraction rest =
    if starts_with rest "."
    then digits_value 0 (span is_digit (Scan.drop rest 1))
      * 10 ^ (6 - len (span is_digit (Scan.drop rest 1)))
    else 0

abbrev read : String → Option Fixed
read s =
    let whole = span is_digit s in
    if 0 == len whole
    then none
    else some (pos (digits_value 0 whole * 1_000_000 + fraction (Scan.drop s (len whole))))

abbrev times : ℕ → ℤ → ℤ
times k n = sub_ℕ (k * pos_part n) (k * neg_part n)

abbrev rounded : ℕ → ℤ → ℤ
rounded half n = sub_ℕ ((pos_part n + half) / 1_000_000) ((neg_part n + half) / 1_000_000)

instance abbrev pub fixed_conversions : Conversions Fixed
fixed_conversions = record {
  stod = read;
  pow_10 = λ n. pos (10 ^ pos_part n * 1_000_000);
  llround = rounded 500_000;
  to_int = rounded 0;
  from_int = times 1_000_000;
}
