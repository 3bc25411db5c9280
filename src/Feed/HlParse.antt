-- ===== src/Feed/HlParse.antt =====
-- `parse_hl_bbo`, `parse_hl_fill` and `parse_hl_trades`. A position is searched from the one before it, and
-- a field that is missing ends the loop or keeps its default, as the source has it.
use Prim.Native.Char.{Char, code}
use Prim.Native.String.{String, len, slice, char_at, ◌++◌}
use hl_maker_lighter_arb_cpp.Common.{
  ℕ, suc, ◌+◌, Bool, true, not, ◌&&◌, ◌||◌, Option, none, some, List, [], ltb, ◌==◌, if◌then◌else◌,
}
use hl_maker_lighter_arb_cpp.Double.{Double, lit, ◌<ᵈ◌}
use hl_maker_lighter_arb_cpp.Types.{TradeEvent}
use hl_maker_lighter_arb_cpp.Scan.{◌>>=◌, or_else, find_from, contains, skip, drop, is_char}
use hl_maker_lighter_arb_cpp.Convert.{Conversions, stoull_prefix}
use hl_maker_lighter_arb_cpp.Feed.Loop.{collect}

-- The text between the next two quotes from a position on, and where it ends.
unfoldable pub quoted_after : String → ℕ → Option (String × ℕ)
quoted_after msg p = find_from msg "\"" p >>= (λ quote.
    find_from msg "\"" (quote + 1) >>= (λ stop. some (slice msg (quote + 1) stop, stop)))

-- The first character of the text behind the key, where there is one.
unfoldable pub side_is_buy : String → Option ℕ → Bool
side_is_buy msg side_pos =
    or_else
      (side_pos >>= (λ p.
        find_from msg "\"" (p + 6) >>= (λ quote. some (code (char_at msg (quote + 1)) == b'B'))))
      true

abbrev in_oid : Char → Bool
in_oid ch = not (is_char b',' ch || is_char b'}' ch || is_char 34 ch)

-- A number or a text.
unfoldable pub oid_text : String → Option ℕ → String
oid_text msg oid_pos =
    or_else
      (oid_pos >>= (λ p. find_from msg ":" (p + 4) >>= (λ colon.
        let start = skip (λ ch. is_char b' ' ch || is_char 34 ch) msg (colon + 1) in
        some (slice msg start (skip in_oid msg start)))))
      ""

-- `a < b`, where a search that fails is the greatest number.
abbrev before_found : ℕ → Option ℕ → Bool
before_found a none = true
before_found a (some b) = ltb a b

-- The same with 100 more, which wraps the greatest number to 99.
abbrev before_found_100 : ℕ → Option ℕ → Bool
before_found_100 a none = ltb a 99
before_found_100 a (some b) = ltb a (b + 100)

unfoldable pub fee_token_of : String → (se : ℕ) → Option ℕ → String
fee_token_of msg se token_pos =
    or_else
      (token_pos >>= (λ p.
        if before_found_100 p (find_from msg "}" se)
        then quoted_after msg (p + 10) >>= (λ (text, _). some text)
        else none))
      ""

pub record ParsedFill (W : Type 0) : Type 0 where
  pub coin : String
  pub price : W
  pub size : W
  pub is_buy : Bool
  pub oid : String
  pub fee : W
  pub fee_token : String

module _ {W : Type 0} ⦃d : Double W⦄ ⦃c : Conversions W⦄ where
  -- A quoted number behind a key that is searched from a position on, and where it ends.
  unfoldable pub number_at : String → String → ℕ → Option (W × ℕ)
  number_at msg key p = find_from msg key p >>= (λ key_pos.
      quoted_after msg (key_pos + len key)
      >>= (λ (text, stop). c.stod text >>= (λ n. some (n, stop))))

  -- The first price is the bid and the second the ask; both are above 0.
  unfoldable pub parse_hl_bbo : String → Option (W × W)
  parse_hl_bbo msg = find_from msg "\"bbo\"" 0 >>= (λ bbo_pos.
      number_at msg "\"px\"" bbo_pos >>= (λ (bid, bid_end).
        number_at msg "\"px\"" bid_end >>= (λ (ask, ask_end).
          if (lit 0 0 <ᵈ bid) && (lit 0 0 <ᵈ ask) then some (bid, ask) else none)))

  unfoldable pub fee_of : String → (se : ℕ) → Option ℕ → W
  fee_of msg se fee_pos =
      or_else
        (fee_pos >>= (λ p.
          if before_found p (find_from msg "}" se)
          then quoted_after msg (p + 5) >>= (λ (text, _). c.stod text)
          else none))
        (lit 0 0)

  -- One round of the loop: a fill, and where the next is searched from.
  unfoldable pub next_fill : String → ℕ → Option (ParsedFill W × ℕ)
  next_fill msg search_pos = find_from msg "\"coin\"" search_pos >>= (λ coin_pos.
      quoted_after msg (coin_pos + 6) >>= (λ (coin, coin_end).
        number_at msg "\"px\"" coin_end >>= (λ (price, price_end).
          number_at msg "\"sz\"" price_end >>= (λ (size, size_end).
            let oid_pos = find_from msg "\"oid\"" size_end in
            let fee_pos = find_from msg "\"fee\"" (or_else oid_pos size_end) in
            let token_pos = find_from msg "\"feeToken\"" (or_else fee_pos size_end) in
            some (
              record {
                coin = coin;
                price = price;
                size = size;
                is_buy = side_is_buy msg (find_from msg "\"side\"" size_end);
                oid = oid_text msg oid_pos;
                fee = fee_of msg size_end fee_pos;
                fee_token = fee_token_of msg size_end token_pos;
              },
              size_end + 1,
            )))))

  -- The fills of a message that is no snapshot. The source also returns whether there is one.
  unfoldable pub parse_hl_fill : String → List (ParsedFill W)
  parse_hl_fill msg =
      if contains msg "\"isSnapshot\":true" then [] else elim (find_from msg "\"fills\"" 0) [
        | none ↦ []
        | some p ↦ collect (next_fill msg) (suc (len msg)) p
      ]

  unfoldable pub next_trade : String → String → (now_ns : ℕ) → ℕ → Option (TradeEvent W × ℕ)
  next_trade msg target_coin now_ns search_pos =
      number_at msg "\"px\"" search_pos >>= (λ (price, price_end).
        number_at msg "\"sz\"" price_end >>= (λ (size, size_end).
          let side_pos = find_from msg "\"side\"" size_end in
          some (
            record {
              coin = target_coin;
              price = price;
              size = size;
              is_buy = side_is_buy msg side_pos;
              timestamp_ns = now_ns;
              exchange_time_ms =
                  or_else
                    (find_from msg "\"time\"" (or_else side_pos size_end) >>= (λ time_pos.
                      find_from msg ":" (time_pos + 5) >>= (λ colon.
                        stoull_prefix (drop msg (skip (is_char b' ') msg (colon + 1))))))
                    0;
            },
            size_end + 1,
          )))

  -- The clock is read for every trade; the trades of one message have one reading here.
  unfoldable pub parse_hl_trades : String → String → (now_ns : ℕ) → List (TradeEvent W)
  parse_hl_trades msg target_coin now_ns = elim (find_from msg "\"trades\"" 0) [
    | none ↦ []
    | some p ↦
        if contains msg ("\"coin\":\"" ++ (target_coin ++ "\""))
        then collect (next_trade msg target_coin now_ns) (suc (len msg)) p
        else []
  ]
