-- ===== src/Feed/LighterParse.antt =====
-- `parse_lighter_ticker`, `parse_lighter_position_update`, `parse_lighter_order_updates` and
-- `parse_lighter_account_trades`. The last three read fields by regular expression in a section of the
-- message, and do not catch the exceptions of `std::stod` and its kin: none is an exception.
use Prim.Native.String.{String, len, ◌++◌}
use text.Mathlib.Text.{◌==◌ as str_eq}
use hl_maker_lighter_arb_cpp.Common.{
  ℕ, suc, ◌+◌, Bool, true, false, not, ◌&&◌, ◌||◌, Option, none, some, List, [], ◌∷◌, ltb,
  if◌then◌else◌,
}
use hl_maker_lighter_arb_cpp.Common.Int.{ℤ, pos, leb_ℤ}
use hl_maker_lighter_arb_cpp.Common.Text.{to_string}
use hl_maker_lighter_arb_cpp.Double.{Double, lit, ◌<ᵈ◌}
use hl_maker_lighter_arb_cpp.Types.{LighterPositionSnapshot}
use hl_maker_lighter_arb_cpp.Scan.{
  ◌>>=◌, or_else, find_from, contains, substr, regex_search, digits_group, quoted_group, bool_group,
}
use hl_maker_lighter_arb_cpp.Convert.{Conversions, stoll, stoull, field, read_position}
use hl_maker_lighter_arb_cpp.Feed.Loop.{collect}
use hl_maker_lighter_arb_cpp.Feed.HlParse.{number_at}

pub record LighterOrderUpdate (W : Type 0) : Type 0 where
  pub order_index : ℤ
  pub client_order_index : ℤ
  pub is_ask : Bool
  pub price : W
  pub remaining_base_amount : W
  pub filled_base_amount : W
  pub status : String

pub record LighterTradeFill (W : Type 0) : Type 0 where
  pub order_index : ℤ
  pub client_order_index : ℤ
  pub is_ask : Bool
  pub price : W
  pub size : W
  pub tx_hash : String
  pub exchange_time_ms : ℕ

abbrev pub eq_ℤ : ℤ → ℤ → Bool
eq_ℤ a b = leb_ℤ a b && leb_ℤ b a

-- A captured text as it is, and as a truth value.
abbrev text_of : String → Option String
text_of s = some s

abbrev is_true : String → Option Bool
is_true s = some (str_eq s "true")

-- The objects of a loop, unless one of them throws.
unfoldable pub all_some : {A : Type 0} → List (Option A) → Option (List A)
all_some [] = some []
all_some (none ∷ rest) = none
all_some (some a ∷ rest) = all_some rest >>= (λ as_. some (a ∷ as_))

unfoldable pub keep_some : {A : Type 0} → List (Option A) → List A
keep_some [] = []
keep_some (none ∷ rest) = keep_some rest
keep_some (some a ∷ rest) = a ∷ keep_some rest

-- `"<market>":` and what opens its value.
unfoldable pub market_key : ℤ → String → String
market_key market_index opening = "\"" ++ (to_string market_index ++ ("\":" ++ opening))

module _ {W : Type 0} ⦃d : Double W⦄ ⦃c : Conversions W⦄ where
  -- A side's price behind its key, both above 0.
  unfoldable pub parse_lighter_ticker : String → Option (W × W)
  parse_lighter_ticker msg = find_from msg "\"ticker\"" 0 >>= (λ ticker_pos.
      find_from msg "\"a\"" ticker_pos >>= (λ ask_pos.
        find_from msg "\"b\"" ticker_pos >>= (λ bid_pos.
          number_at msg "\"price\"" ask_pos >>= (λ (ask, _).
            number_at msg "\"price\"" bid_pos >>= (λ (bid, _).
              if (lit 0 0 <ᵈ bid) && (lit 0 0 <ᵈ ask) then some (bid, ask) else none)))))

  abbrev pub no_position : LighterPositionSnapshot W
  no_position = record { size = lit 0 0; avg_entry_price = lit 0 0; position_value = lit 0 0 }

  -- The inner none: the message is about something else. A market that the message does not list has no
  -- position.
  unfoldable pub parse_lighter_position_update :
      String → ℤ → Option (Option (LighterPositionSnapshot W))
  parse_lighter_position_update msg market_index =
      if not (contains msg "\"account_all_positions:\"") || not (contains msg "\"positions\"")
      then some none
      else elim (find_from msg (market_key market_index "{") 0) [
        | none ↦ some (some no_position)
        | some market_pos ↦ read_position (substr msg market_pos 512) >>= (λ snap. some (some snap))
      ]

  unfoldable pub read_order : String → Option (LighterOrderUpdate W)
  read_order section =
      field section "\"order_index\":" digits_group stoll (pos 0) >>= (λ order_index.
        field section "\"client_order_index\":" digits_group stoll (pos 0)
        >>= (λ client_order_index.
            field section "\"is_ask\":" bool_group is_true false >>= (λ is_ask.
              field section "\"price\":\"" quoted_group c.stod (lit 0 0) >>= (λ price.
                field section "\"remaining_base_amount\":\"" quoted_group c.stod (lit 0 0)
                >>= (λ remaining.
                    field section "\"filled_base_amount\":\"" quoted_group c.stod (lit 0 0)
                    >>= (λ filled.
                        field section "\"status\":\"" quoted_group text_of "" >>= (λ status.
                          some (record {
                            order_index = order_index;
                            client_order_index = client_order_index;
                            is_ask = is_ask;
                            price = price;
                            remaining_base_amount = remaining;
                            filled_base_amount = filled;
                            status = status;
                          }))))))))

  -- One round of the loop over orders. A second list of the same market ends it, as does an index that is
  -- no number.
  unfoldable pub next_order : String → ℤ → ℕ → Option (Option (LighterOrderUpdate W) × ℕ)
  next_order msg market_index search_pos =
      find_from msg "\"order_index\"" search_pos >>= (λ idx_pos.
        let section = substr msg idx_pos 1024 in
        let past_market =
          or_else
            (find_from msg (market_key market_index "[") (idx_pos + 1)
              >>= (λ next_market. some (ltb next_market idx_pos)))
            false in
        if past_market
        then none
        else regex_search section "\"order_index\":" digits_group
          >>= (λ _. some (read_order section, idx_pos + 1)))

  unfoldable pub parse_lighter_order_updates : String → ℤ → Option (List (LighterOrderUpdate W))
  parse_lighter_order_updates msg market_index =
      if not (contains msg "account_orders:") || not (contains msg "\"orders\"")
      then some []
      else elim (find_from msg (market_key market_index "[") 0) [
        | none ↦ some []
        | some p ↦ all_some (collect (next_order msg market_index) (suc (len msg)) p)
      ]

  -- A trade of the account as maker, or none where it is the other side's.
  unfoldable pub read_trade : String → ℤ → Option (Option (LighterTradeFill W))
  read_trade section account_index =
      field section "\"tx_hash\":\"" quoted_group text_of "" >>= (λ tx_hash.
        field section "\"price\":\"" quoted_group c.stod (lit 0 0) >>= (λ price.
          field section "\"size\":\"" quoted_group c.stod (lit 0 0) >>= (λ size.
            field section "\"is_maker_ask\":" bool_group is_true false >>= (λ is_maker_ask.
              field section "\"ask_account_id\":" digits_group stoll (pos 0) >>= (λ ask_account.
                field section "\"bid_account_id\":" digits_group stoll (pos 0) >>= (λ bid_account.
                  field section "\"ask_id\":" digits_group stoll (pos 0) >>= (λ ask_id.
                    field section "\"bid_id\":" digits_group stoll (pos 0) >>= (λ bid_id.
                      field section "\"ask_client_id\":" digits_group stoll (pos 0)
                      >>= (λ ask_client.
                          field section "\"bid_client_id\":" digits_group stoll (pos 0)
                          >>= (λ bid_client.
                              field section "\"timestamp\":" digits_group stoull 0
                              >>= (λ exchange_time_ms.
                                  let fill : Bool → ℤ → ℤ → LighterTradeFill W =
                                    λ is_ask order_index client_order_index. record {
                                      order_index = order_index;
                                      client_order_index = client_order_index;
                                      is_ask = is_ask;
                                      price = price;
                                      size = size;
                                      tx_hash = tx_hash;
                                      exchange_time_ms = exchange_time_ms;
                                    } in
                                  some (
                                    if is_maker_ask && eq_ℤ ask_account account_index
                                    then some (fill true ask_id ask_client)
                                    else if not is_maker_ask && eq_ℤ bid_account account_index
                                    then some (fill false bid_id bid_client)
                                    else none))))))))))))

  unfoldable pub next_account_trade :
      String → ℤ → ℕ → Option (Option (Option (LighterTradeFill W)) × ℕ)
  next_account_trade msg account_index search_pos =
      find_from msg "\"tx_hash\"" search_pos >>= (λ tx_pos.
        let section = substr msg tx_pos 1024 in
        regex_search section "\"tx_hash\":\"" quoted_group
        >>= (λ _. some (read_trade section account_index, tx_pos + 1)))

  unfoldable pub parse_lighter_account_trades :
      String → (account_index market_index : ℤ) → Option (List (LighterTradeFill W))
  parse_lighter_account_trades msg account_index market_index =
      if not (contains msg "account_all_trades:") || not (contains msg "\"trades\"")
      then some []
      else elim (find_from msg (market_key market_index "[") 0) [
        | none ↦ some []
        | some p ↦
            all_some (collect (next_account_trade msg account_index) (suc (len msg)) p)
            >>= (λ trades. some (keep_some trades))
      ]
