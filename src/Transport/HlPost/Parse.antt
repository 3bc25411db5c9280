-- ===== src/Transport/HlPost/Parse.antt =====
-- `parse_post_id` and `extract_json_value`, and the body that `on_message` makes of a response. A scan
-- walks the rest of the message; a result of none inside another option is an exception.
use Prim.Native.Char.{Char}
use Prim.Native.String.{String, len, slice}
use text.Mathlib.Text.{◌==◌ as str_eq}
use hl_maker_lighter_arb_cpp.Common.{
  ℕ, suc, ◌+◌, ◌-◌, ◌^◌, Bool, false, not, ◌&&◌, ◌||◌, Option, none, some, ◌==◌, if◌then◌else◌,
}
use hl_maker_lighter_arb_cpp.Scan.{
  ◌>>=◌, find_from, contains, span, skip, drop, is_char, is_digit, digits_below,
}
use hl_maker_lighter_arb_cpp.Transport.{make_error_body}

-- The number behind the first `"id":` of a message of the channel `post`; `std::stoull` throws on a
-- number that does not fit 64 bits.
unfoldable pub parse_post_id : String → Option (Option ℕ)
parse_post_id msg =
    if not (contains msg "\"channel\":\"post\"")
    then some none
    else elim (find_from msg "\"id\":" 0) [
      | none ↦ some none
      | some id_pos ↦
          let start = skip (is_char b' ') msg (id_pos + 5) in
          let stop = skip is_digit msg start in
          if stop == start
          then some none
          else digits_below (2 ^ 64) (slice msg start stop) >>= (λ id. some (some id))
    ]

-- A character in front of what a scan returns.
abbrev pub before : Char → Option String → Option String
before c none = none
before c (some s) = some (String.◌∷◌ c s)

-- Up to the quote that ends a string, and with it; `escaped` is behind a backslash.
unfoldable pub quote_end : Bool → String → Option String
quote_end escaped String.[] = none
quote_end escaped (String.◌∷◌ c s) =
    let rest = quote_end (not escaped && is_char 92 c) s in
    if not escaped && is_char 34 c then some (String.◌∷◌ c String.[]) else before c rest

-- Up to the character that closes an object or array, and with it: `depth` is the number of open
-- brackets, which is at least one behind the first.
unfoldable pub bracket_end :
    (open_char close_char depth : ℕ) (in_string escaped : Bool) → String → Option String
bracket_end o e depth in_string escaped String.[] = none
bracket_end o e depth in_string escaped (String.◌∷◌ c s) =
    let opens = not in_string && not (is_char 34 c) && is_char o c in
    let closes = not in_string && not (is_char 34 c) && not (is_char o c) && is_char e c in
    let depth' = if opens then suc depth else if closes then depth - 1 else depth in
    let rest =
      bracket_end o e depth' (if in_string then escaped || not (is_char 34 c) else is_char 34 c)
        (in_string && not escaped && is_char 92 c) s in
    if closes && depth' == 0 then some (String.◌∷◌ c String.[]) else before c rest

abbrev pub not_value_end : Char → Bool
not_value_end c = not (is_char b',' c || is_char b'}' c || is_char b']' c)

-- The value at the beginning of a text: a string, an object or array, or what comes before a `,`, `}`
-- or `]`.
unfoldable pub json_value : String → Option String
json_value String.[] = none
json_value (String.◌∷◌ c s) =
    if is_char 34 c
    then before c (quote_end false s)
    else if is_char b'{' c
    then before c (bracket_end b'{' b'}' 1 false false s)
    else if is_char b'[' c
    then before c (bracket_end b'[' b']' 1 false false s)
    else some (span not_value_end (String.◌∷◌ c s))

unfoldable pub extract_json_value : String → String → Option String
extract_json_value msg key = find_from msg key 0 >>= (λ key_pos.
    json_value (drop msg (skip (λ c. is_char b' ' c || is_char b':' c) msg (key_pos + len key))))

-- What the caller is told by a response.
unfoldable pub response_body : String → String
response_body msg = elim (extract_json_value msg "\"type\"") [
  | none ↦ make_error_body "ws_post_missing_payload"
  | some type ↦
      if str_eq type "\"error\""
      then elim (extract_json_value msg "\"payload\"") [
        | none ↦ make_error_body "ws_post_error"
        | some payload ↦ make_error_body payload
      ]
      else elim (extract_json_value msg "\"payload\"") [
        | none ↦ make_error_body "ws_post_missing_payload"
        | some payload ↦ payload
      ]
]
