-- ===== src/Examples/Hyperliquid.antt =====
-- The client of Hyperliquid at concrete inputs.
use Prim.Native.String.{String}
use hl_maker_lighter_arb_cpp.Common.{ℕ, ◌≡◌, refl, true, false, none, some, List, [], ◌∷◌, arith}
use hl_maker_lighter_arb_cpp.Common.Int.{pos}
use hl_maker_lighter_arb_cpp.Common.Text.{to_string, decimal}
use hl_maker_lighter_arb_cpp.Double.Fixed.{Fixed, fixed_double}
use hl_maker_lighter_arb_cpp.Exchange.{HlLimitOrderRequest, HlLimitOrderAck}
use hl_maker_lighter_arb_cpp.Scan.{
  or_else, find_from, regex_search, search_on, drop, span, digits_group, digits_below, digits_value,
}
use hl_maker_lighter_arb_cpp.Convert.Fixed.{fixed_conversions}
use hl_maker_lighter_arb_cpp.Convert.{stoi}
use hl_maker_lighter_arb_cpp.Msgpack.Pack.{
  mp_pack_str, mp_pack_bool, mp_pack_uint, mp_pack_array_size, mp_pack_map_size,
}
use hl_maker_lighter_arb_cpp.NativeHyperliquid.Client.{
  MetaEntry, World, ensure_meta, meta_for_coin, find_meta, float_to_wire, round_sig_figs,
  round_size, trim_number, drop_zeros, drop_point, entries, match_entry,
}
use hl_maker_lighter_arb_cpp.NativeHyperliquid.Fixed.{fixed_formats, format, six_digits}
use hl_maker_lighter_arb_cpp.NativeHyperliquid.Action.{
  price_text, size_text, tif, order_action_json, order_action_bytes, text_of,
}
use hl_maker_lighter_arb_cpp.NativeHyperliquid.Orders.{
  Client, Call, place_limit_order, post_order, read_limit_ack, placed_oid, answered,
  post_exchange_action, resting_group,
}
use hl_maker_lighter_arb_cpp.Crypto.Hex.{
  digit_value, starts_with_digit, read_digits, prefixed, read_number, read_unsigned, skip_spaces,
  read_signed, stoul_16, without_prefix, pairs, hex_to_bytes,
}
use hl_maker_lighter_arb_cpp.NativeHyperliquid.Sign.{
  vault_bytes, append_vault_and_nonce, action_hash, sign_l1_action,
}
use hl_maker_lighter_arb_cpp.NativeHyperliquid.Preimage.{order_preimage-injective}
use hl_maker_lighter_arb_cpp.NativeHyperliquid.Signed.{Signed, post_order-Signed}
use hl_maker_lighter_arb_cpp.NativeHyperliquid.Answers.{placed_oid-place_limit_order}
use hl_maker_lighter_arb_cpp.Examples.Data.{amount}

abbrev key : String
key = "0x0123456789abcdef0123456789abcdef0123456789abcdef0123456789abcdef"

abbrev hype : MetaEntry
hype = record { asset = 1; sz_decimals = pos 2 }

abbrev client : Client
client = record {
  config = record { private_key = key; vault_address = none };
  meta = ("HYPE", hype) ∷ [];
}

-- A curve that signs everything, and a venue that answers every request with a text.
abbrev world : String → World
world answer = record {
  meta_body = none;
  book_body = none;
  now_ms = 1_700_000_000_000;
  sign = λ digest priv. some (digest, 1);
  action_transport = some (λ _. answer);
}

abbrev buy : HlLimitOrderRequest Fixed
buy = record {
  coin = "HYPE";
  is_buy = true;
  price = amount 253104 4;
  size = amount 15 1;
  post_only = true;
  dry_run = false;
}

price_25 : price_text buy ≡ "25.31"
unfolding price_text float_to_wire round_sig_figs trim_number drop_zeros drop_point format
    six_digits to_string decimal
price_25 = refl

json_of_buy :
    order_action_json buy hype false false
    ≡ "{\"type\":\"order\",\"orders\":[{\"a\":1,\"b\":true,\"p\":\"25.31\",\"s\":\"1.5\",\"r\":false,\"t\":{\"limit\":{\"tif\":\"Alo\"}}}],\"grouping\":\"na\"}"
unfolding order_action_json text_of tif size_text round_size price_text float_to_wire round_sig_figs
    trim_number drop_zeros drop_point format six_digits to_string decimal
json_of_buy = refl

abbrev coins : String
coins =
    "{\"universe\":[{\"szDecimals\":5,\"name\":\"BTC\",\"maxLeverage\":40},{\"szDecimals\":2,\"name\":\"HYPE\"}]}"

second_coin :
    find_meta "HYPE" (ensure_meta [] (record (world "") { meta_body = some coins })).meta
    ≡ some hype
unfolding find_meta ensure_meta entries match_entry find_from span drop stoi digits_below
    digits_value
second_coin = refl

abbrev first : List String → String
first [] = ""
first (body ∷ rest) = body

abbrev resting : String
resting =
    "{\"status\":\"ok\",\"response\":{\"data\":{\"statuses\":[{\"resting\":{\"oid\":77738308}}]}}}"

abbrev placed : Call HlLimitOrderAck
placed = place_limit_order client (world resting) buy

abbrev posted_order : Call HlLimitOrderAck
posted_order = post_order read_limit_ack client (world resting) buy false false

post_order-Signed_example :
    (meta : MetaEntry) × (meta_for_coin (ensure_meta client.meta (world resting)) "HYPE"
      ≡ some meta)
    × Signed client.config
        (world resting)
        (order_action_bytes buy meta false false)
        (order_action_json buy meta false false)
        (first posted_order.posted)
unfolding post_order ensure_meta meta_for_coin find_meta answered post_exchange_action action_hash
    append_vault_and_nonce vault_bytes sign_l1_action hex_to_bytes without_prefix prefixed pairs
    stoul_16 skip_spaces read_signed read_unsigned read_number starts_with_digit read_digits
    digit_value
post_order-Signed_example =
    post_order-Signed read_limit_ack client (world resting) buy false false
      (first posted_order.posted) refl

abbrev placed_ack : HlLimitOrderAck
placed_ack = record { ok = true; message = "ok"; oid = "77738308" }

placed_oid-place_limit_order_example :
    (body : String) × (transport : String → String) × (placed.posted ≡ body ∷ [])
    × ((world resting).action_transport ≡ some transport)
    × (placed_oid (transport body) ≡ some "77738308")
unfolding place_limit_order read_limit_ack placed_oid regex_search search_on find_from resting_group
    digits_group span drop post_order ensure_meta meta_for_coin find_meta answered
    post_exchange_action action_hash append_vault_and_nonce vault_bytes sign_l1_action hex_to_bytes
    without_prefix prefixed pairs stoul_16 skip_spaces read_signed read_unsigned read_number
    starts_with_digit read_digits digit_value
placed_oid-place_limit_order_example =
    placed_oid-place_limit_order client (world resting) buy placed_ack refl refl refl

-- A price that is written the same.
abbrev buy_too : HlLimitOrderRequest Fixed
buy_too = record buy { price = amount 253101 4 }

-- The bytes that are hashed for the order.
abbrev hashed : List ℕ
hashed =
    or_else
      (append_vault_and_nonce client.config (order_action_bytes buy hype false false)
        1_700_000_000_000)
      []

order_preimage-injective_example :
    (hype.asset ≡ hype.asset)
    × (true ≡ true)
    × (price_text buy ≡ price_text buy_too)
    × (size_text buy hype ≡ size_text buy_too hype)
    × (false ≡ false)
    × (tif buy false ≡ tif buy_too false)
    × (◌≡◌ {A = ℕ} 1_700_000_000_000 1_700_000_000_000)
unfolding append_vault_and_nonce vault_bytes price_text size_text round_size float_to_wire
    round_sig_figs trim_number drop_zeros drop_point format six_digits to_string decimal
    order_action_bytes tif mp_pack_str mp_pack_bool mp_pack_uint mp_pack_array_size mp_pack_map_size
order_preimage-injective_example =
    order_preimage-injective client.config buy buy_too hype hype false false false false
      1_700_000_000_000 1_700_000_000_000 hashed (omega arith) (omega arith) (omega arith)
      (omega arith) refl refl
