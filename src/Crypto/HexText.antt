-- ===== src/Crypto/HexText.antt =====
-- Bytes as text and back, and which texts are read as bytes.
use Prim.Native.Char.{Char}
use Prim.Native.String.{String, ◌++◌}
use hl_maker_lighter_arb_cpp.Common.{
  ℕ, ◌+◌, ◌/◌, ◌%◌, ◌<◌, ◌≡◌, refl, ap, ◌∙◌, Bool, true, false, ◌&&◌, ◌||◌, not, Option, none, some,
  List, [], ◌∷◌, ◌==◌, ==_iff, arith, All, passes_below, passes_below_at, ltb, ◌*◌, ◌^◌,
}
use Prim.Native.String.append
use hl_maker_lighter_arb_cpp.Convert.{is_space}
use hl_maker_lighter_arb_cpp.Scan.{is_char}
use hl_maker_lighter_arb_cpp.Crypto.Hex.{
  digit_value, starts_with_digit, read_digits, prefixed, read_number, or_bare, read_unsigned,
  skip_spaces, read_signed, stoul_16, without_prefix, pairs, hex_to_bytes, hex_digit, hex_digits,
  bytes_to_hex,
}

abbrev two_digits : ℕ → String
two_digits b = String.◌∷◌ (hex_digit (b / 16 % 16)) (String.◌∷◌ (hex_digit (b % 16)) String.[])

abbrev is_none : Option String → Bool
is_none none = true
is_none (some s) = false

abbrev reads_as : Option ℕ → ℕ → Bool
reads_as none b = false
reads_as (some n) b = n == b

reads_as_lem : (o : Option ℕ) (b : ℕ) → reads_as o b ≡ true → o ≡ some b
reads_as_lem none b h = cc
reads_as_lem (some n) b h = ap some ((==_iff n b).0 h)

stoul_16-two_digits : (b : ℕ) → b < 256 → stoul_16 (two_digits b) ≡ some b
unfolding passes_below stoul_16 skip_spaces read_signed read_unsigned read_number prefixed
    starts_with_digit read_digits digit_value hex_digit
stoul_16-two_digits b h =
    reads_as_lem (stoul_16 (two_digits b)) b
      (passes_below_at (λ n. reads_as (stoul_16 (two_digits n)) n) 256 b h refl)

pairs-hex_digits :
    (bytes : List ℕ) → All (λ b. b < 256) bytes → pairs (hex_digits bytes) ≡ some bytes
unfolding pairs hex_digits
pairs-hex_digits [] small = refl
pairs-hex_digits (b ∷ bytes) (h, small) =
    rw (stoul_16-two_digits b h)
      (rw (pairs-hex_digits bytes small) (ap (λ n. some (n ∷ bytes)) (low b h)))
  where
    low : (b : ℕ) → b < 256 → b % 256 ≡ b
    low b h = omega arith

-- No digit is an `x`, so that digits are never taken for a prefix.
abbrev is_prefix : Char → Char → Bool
is_prefix c d = is_char b'0' c && (is_char b'x' d || is_char b'X' d)

no_prefix :
    (b : ℕ) → b < 256 → not (is_prefix (hex_digit (b / 16 % 16)) (hex_digit (b % 16))) ≡ true
unfolding passes_below hex_digit
no_prefix b h =
    passes_below_at (λ n. not (is_prefix (hex_digit (n / 16 % 16)) (hex_digit (n % 16)))) 256 b h
      refl

false_of_not : (b : Bool) → not b ≡ true → b ≡ false
false_of_not true h = cc
false_of_not false h = refl

-- A text of two characters or more that begins with no prefix.
without_prefix-same :
    (c d : Char) (s : String)
    → is_prefix c d ≡ false
    → without_prefix (String.◌∷◌ c (String.◌∷◌ d s)) ≡ String.◌∷◌ c (String.◌∷◌ d s)
unfolding without_prefix prefixed
without_prefix-same c d s other = rw (other, without_prefix) refl

without_prefix-hex_digits :
    (bytes : List ℕ)
    → All (λ b. b < 256) bytes
    → without_prefix (hex_digits bytes) ≡ hex_digits bytes
unfolding hex_digits
without_prefix-hex_digits [] small = unfold without_prefix prefixed in refl
without_prefix-hex_digits (b ∷ bytes) (h, small) =
    without_prefix-same (hex_digit (b / 16 % 16)) (hex_digit (b % 16)) (hex_digits bytes)
      (false_of_not _ (no_prefix b h))

without_prefix-prefixed : (s : String) → without_prefix ("0x" ++ s) ≡ s
unfolding without_prefix prefixed
without_prefix-prefixed s = rw (append.cons "0" "x" s, append.cons "x" "" s, append.nil s) refl

-- What `bytes_to_hex` writes is read back by `hex_to_bytes`, with and without the `0x`.
pub hex_to_bytes-bytes_to_hex :
    (bytes : List ℕ) (with_prefix : Bool)
    → All (λ b. b < 256) bytes
    → hex_to_bytes (bytes_to_hex bytes with_prefix) ≡ some bytes
unfolding hex_to_bytes bytes_to_hex
hex_to_bytes-bytes_to_hex bytes true small =
    ap pairs (without_prefix-prefixed (hex_digits bytes)) ∙ pairs-hex_digits bytes small
hex_to_bytes-bytes_to_hex bytes false small =
    ap (λ s. pairs (without_prefix s)) (append.nil (hex_digits bytes))
    ∙ ap pairs (without_prefix-hex_digits bytes small)
    ∙ pairs-hex_digits bytes small

abbrev IsPlain : Char → ℕ → Type 0
IsPlain c v = (is_space c ≡ false) × (is_char b'-' c ≡ false) × (is_char b'+' c ≡ false) × (v < 16)

digit_value-IsPlain : (c : Char) (v : ℕ) → digit_value c ≡ some v → IsPlain c v
unfolding digit_value
digit_value-IsPlain c v digit = ground arith

not_prefix : (c d : Char) → is_char b'x' d ≡ false → is_char b'X' d ≡ false → is_prefix c d ≡ false
not_prefix c d lower upper = ground (arith)

prefixed-none :
    (c d : Char) → is_prefix c d ≡ false → prefixed (String.◌∷◌ c (String.◌∷◌ d String.[])) ≡ none
unfolding prefixed
prefixed-none c d bare = rw (bare, prefixed) refl

read_digits-digit :
    (c : Char) (v n : ℕ) (s : String)
    → digit_value c ≡ some v
    → read_digits n (String.◌∷◌ c s) ≡ read_digits (n * 16 + v) s
unfolding read_digits
read_digits-digit c v n s digit = rw (digit, read_digits) refl

read_digits-stray :
    (d : Char) (n : ℕ) → digit_value d ≡ none → read_digits n (String.◌∷◌ d String.[]) ≡ n
unfolding read_digits
read_digits-stray d n other = rw (other, read_digits) refl

read_number-stray :
    (c d : Char) (v : ℕ)
    → digit_value c ≡ some v
    → digit_value d ≡ none
    → v < 16
    → read_number (String.◌∷◌ c (String.◌∷◌ d String.[])) ≡ some v
unfolding read_number starts_with_digit
read_number-stray c d v digit other small = rw (digit, value) (rw fits refl)
  where
    value : read_digits 0 (String.◌∷◌ c (String.◌∷◌ d String.[])) ≡ v
    value =
        read_digits-digit c v 0 (String.◌∷◌ d String.[]) digit
        ∙ read_digits-stray d (0 * 16 + v) other
        ∙ omega arith

    fits : ltb v (2 ^ 64) ≡ true
    fits = ground (arith, small)

stoul_16-stray :
    (c d : Char) (v : ℕ)
    → digit_value c ≡ some v
    → digit_value d ≡ none
    → is_prefix c d ≡ false
    → IsPlain c v
    → stoul_16 (String.◌∷◌ c (String.◌∷◌ d String.[])) ≡ some v
unfolding stoul_16 skip_spaces read_signed read_unsigned
stoul_16-stray c d v digit other bare (space, minus, plus, small) = rw space (
    rw (minus, plus)
      (ap (λ o. read_number (or_bare text o)) (prefixed-none c d bare)
        ∙ read_number-stray c d v digit other small))
  where
    text : String
    text = String.◌∷◌ c (String.◌∷◌ d String.[])

-- A text of one digit and any other character that is no `x` is read as the byte of that digit: the wrong
-- character is dropped and not refused.
stray_character_read :
    (c d : Char) (v : ℕ)
    → digit_value c ≡ some v
    → digit_value d ≡ none
    → is_char b'x' d ≡ false
    → is_char b'X' d ≡ false
    → hex_to_bytes (String.◌∷◌ c (String.◌∷◌ d String.[])) ≡ some (v ∷ [])
unfolding hex_to_bytes pairs
stray_character_read c d v digit other lower upper =
    ap pairs (without_prefix-same c d String.[] (not_prefix c d lower upper))
    ∙ rw (stoul_16-stray c d v digit other (not_prefix c d lower upper) plain)
        (ap (λ n. some (n ∷ [])) (low v plain.3))
  where
    plain : IsPlain c v
    plain = digit_value-IsPlain c v digit

    low : (v : ℕ) → v < 16 → v % 256 ≡ v
    low v h = omega arith
