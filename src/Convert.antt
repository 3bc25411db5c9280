-- ===== src/Convert.antt =====
-- The conversions between numbers and `double` that the parsers and the trading clients use. What `strtod`
-- makes of a text, and how `llround` and a cast round, are the platform's; none is an exception.
pub mod Fixed
use Prim.Native.Char.{Char, code}
use Prim.Native.String.{String, slice, len}
use text.Mathlib.Text.{starts_with}
use hl_maker_lighter_arb_cpp.Common.{
  ℕ, ◌+◌, ◌%◌, ◌^◌, ◌-◌, ◌&&◌, ◌||◌, leb, Bool, true, false, Option, none, some, ltb, ◌==◌,
  if◌then◌else◌,
}
use hl_maker_lighter_arb_cpp.Common.Int.{ℤ, pos, negsuc, neg_part, sub_ℕ}
use hl_maker_lighter_arb_cpp.Double.{Double, lit}
use hl_maker_lighter_arb_cpp.Types.{LighterPositionSnapshot}
use hl_maker_lighter_arb_cpp.Scan.{
  ◌>>=◌, drop, span, is_digit, digits_below, regex_search, int_group, quoted_group, digits_group,
}

pub record Conversions (W : Type 0) : Type 0 where
  pub stod : String → Option W
  pub pow_10 : ℤ → W
  pub llround : W → ℤ
  pub to_int : W → ℤ
  pub from_int : ℤ → W

-- `std::stoi` on an optional minus and digits, which throws outside of 32 bits.
unfoldable pub stoi : String → Option ℤ
stoi s =
    if starts_with s "-"
    then digits_below (2 ^ 31 + 1) (drop s 1) >>= (λ n. some (sub_ℕ 0 n))
    else digits_below (2 ^ 31) s >>= (λ n. some (pos n))

-- `std::stoll` on digits, and `std::stoull`.
unfoldable pub stoll : String → Option ℤ
stoll s = digits_below (2 ^ 63) s >>= (λ n. some (pos n))

unfoldable pub stoull : String → Option ℕ
stoull s = digits_below (2 ^ 64) s

-- A field that keeps its default where the pattern does not match, and throws where its text is no
-- number.
unfoldable pub field {ℓ} :
    {A : Type ℓ} → String → String → (String → Option String) → (String → Option A) → A → Option A
field text pre group read default = elim (regex_search text pre group) [
  | none ↦ some default
  | some g ↦ read g
]

module _ {W : Type 0} ⦃d : Double W⦄ ⦃c : Conversions W⦄ where
  -- A position as both Lighter's feed and its account query write it.
  unfoldable pub read_position : String → Option (LighterPositionSnapshot W)
  read_position section = field section "\"sign\":" int_group stoi (pos 0) >>= (λ sign.
      field section "\"position\":\"" quoted_group c.stod (lit 0 0) >>= (λ position.
        field section "\"avg_entry_price\":\"" quoted_group c.stod (lit 0 0) >>= (λ avg_entry_price.
          field section "\"position_value\":\"" quoted_group c.stod (lit 0 0) >>= (λ position_value.
            some (record {
              size = d.mul (c.from_int sign) position;
              avg_entry_price = avg_entry_price;
              position_value = position_value;
            })))))

  -- `first_match_as_double`: throws where the pattern does not match.
  unfoldable pub first_match_as_double : String → String → (String → Option String) → Option W
  first_match_as_double text pre group = regex_search text pre group >>= (λ g. c.stod g)

abbrev pub is_space : Char → Bool
is_space ch = code ch == 32 || leb 9 (code ch) && leb (code ch) 13

-- `std::stoull` on any text: white space, a sign, and the digits that follow; a minus negates modulo 2^64.
unfoldable pub stoull_prefix : String → Option ℕ
stoull_prefix s =
    let rest = drop s (len (span is_space s)) in
    if starts_with rest "-"
    then stoull (span is_digit (drop rest 1)) >>= (λ n. some ((2 ^ 64 - n) % 2 ^ 64))
    else stoull (span is_digit (if starts_with rest "+" then drop rest 1 else rest))
