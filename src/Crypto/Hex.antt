-- ===== src/Crypto/Hex.antt =====
-- `hex_to_bytes` and `bytes_to_hex`. A text is walked character by character, each of which is a byte.
use Prim.Native.Char.{Char, code}
use Prim.Native.String.{String, char_at, ◌++◌}
use hl_maker_lighter_arb_cpp.Common.{
  ℕ, ◌+◌, ◌-◌, ◌*◌, ◌/◌, ◌%◌, ◌^◌, Bool, false, ◌&&◌, ◌||◌, Option, none, some, List, [], ◌∷◌, ltb,
  leb, has_value, if◌then◌else◌,
}
use hl_maker_lighter_arb_cpp.Scan.{◌>>=◌, is_digit, is_char}
use hl_maker_lighter_arb_cpp.Convert.{is_space}

-- The value of a hexadecimal digit, as `strtoul` reads it.
unfoldable pub digit_value : Char → Option ℕ
digit_value c =
    if is_digit c
    then some (code c - b'0')
    else if leb b'a' (code c) && leb (code c) b'f'
    then some (code c - b'a' + 10)
    else if leb b'A' (code c) && leb (code c) b'F'
    then some (code c - b'A' + 10)
    else none

unfoldable pub starts_with_digit : String → Bool
starts_with_digit String.[] = false
starts_with_digit (String.◌∷◌ c s) = has_value (digit_value c)

-- The number that the digits at the front of a text spell, after `n`.
unfoldable pub read_digits : ℕ → String → ℕ
read_digits n String.[] = n
read_digits n (String.◌∷◌ c s) = elim (digit_value c) [
  | none ↦ n
  | some v ↦ read_digits (n * 16 + v) s
]

-- The text behind a `0x` or `0X`.
unfoldable pub prefixed : String → Option String
prefixed String.[] = none
prefixed (String.◌∷◌ c String.[]) = none
prefixed (String.◌∷◌ c (String.◌∷◌ d s)) =
    if is_char b'0' c && (is_char b'x' d || is_char b'X' d) then some s else none

abbrev pub or_bare : String → Option String → String
or_bare s none = s
or_bare s (some rest) = if starts_with_digit rest then rest else s

unfoldable pub read_number : String → Option ℕ
read_number t =
    if starts_with_digit t && ltb (read_digits 0 t) (2 ^ 64) then some (read_digits 0 t) else none

-- A prefix counts only before a digit.
unfoldable pub read_unsigned : String → Option ℕ
read_unsigned s = read_number (or_bare s (prefixed s))

unfoldable pub skip_spaces : String → String
skip_spaces String.[] = String.[]
skip_spaces (String.◌∷◌ c s) =
    let rest = skip_spaces s in if is_space c then rest else String.◌∷◌ c s

-- A minus negates modulo 2^64.
unfoldable pub read_signed : String → Option ℕ
read_signed String.[] = none
read_signed (String.◌∷◌ c s) =
    if is_char b'-' c
    then read_unsigned s >>= (λ n. some ((2 ^ 64 - n) % 2 ^ 64))
    else if is_char b'+' c
    then read_unsigned s
    else read_unsigned (String.◌∷◌ c s)

-- `std::stoul(s, nullptr, 16)`, where none is an exception.
unfoldable pub stoul_16 : String → Option ℕ
stoul_16 s = read_signed (skip_spaces s)

-- `trim_0x` of src/native_trading.cpp too.
unfoldable pub without_prefix : String → String
without_prefix s = elim (prefixed s) [ none ↦ s | some rest ↦ rest ]

-- The bytes of a text, two characters each; an odd length is an exception.
unfoldable pub pairs : String → Option (List ℕ)
pairs String.[] = some []
pairs (String.◌∷◌ c String.[]) = none
pairs (String.◌∷◌ c (String.◌∷◌ d s)) =
    stoul_16 (String.◌∷◌ c (String.◌∷◌ d String.[]))
    >>= (λ n. pairs s >>= (λ rest. some ((n % 256) ∷ rest)))

unfoldable pub hex_to_bytes : String → Option (List ℕ)
hex_to_bytes hex = pairs (without_prefix hex)

unfoldable pub hex_digit : ℕ → Char
hex_digit n = char_at "0123456789abcdef" n

unfoldable pub hex_digits : List ℕ → String
hex_digits [] = String.[]
hex_digits (b ∷ bytes) =
    String.◌∷◌ (hex_digit (b / 16 % 16)) (String.◌∷◌ (hex_digit (b % 16)) (hex_digits bytes))

unfoldable pub bytes_to_hex : List ℕ → Bool → String
bytes_to_hex bytes with_prefix = (if with_prefix then "0x" else "") ++ hex_digits bytes
