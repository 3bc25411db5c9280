-- ===== src/NativeHyperliquid/Action.antt =====
-- The actions of the client: as JSON, as the bytes that are hashed, and the request that posts one.
use Prim.Native.Char.{code}
use Prim.Native.String.{String, ◌++◌}
use hl_maker_lighter_arb_cpp.Common.{
  ℕ, ◌+◌, Bool, true, Option, none, some, List, [], ◌∷◌, take, drop, if◌then◌else◌,
}
use hl_maker_lighter_arb_cpp.Common.Int.{pos}
use hl_maker_lighter_arb_cpp.Common.Text.{to_string}
use hl_maker_lighter_arb_cpp.Double.{Double}
use hl_maker_lighter_arb_cpp.Exchange.{HlLimitOrderRequest}
use hl_maker_lighter_arb_cpp.Scan.{◌>>=◌}
use hl_maker_lighter_arb_cpp.Convert.{Conversions, stoull_prefix}
use hl_maker_lighter_arb_cpp.Msgpack.Bytes.{ByteBuffer}
use hl_maker_lighter_arb_cpp.Msgpack.Pack.{
  mp_pack_str, mp_pack_bool, mp_pack_uint, mp_pack_array_size, mp_pack_map_size,
}
use hl_maker_lighter_arb_cpp.Crypto.Hex.{bytes_to_hex}
use hl_maker_lighter_arb_cpp.NativeHyperliquid.Client.{
  HyperliquidConfig, MetaEntry, Formats, float_to_wire, round_sig_figs, round_size,
}

-- The bytes of a text; its characters are bytes.
abbrev pub codes : String → List ℕ
codes String.[] = []
codes (String.◌∷◌ c s) = code c ∷ codes s

unfoldable pub text_of : Bool → String
text_of b = if b then "true" else "false"

module _ {W : Type 0} ⦃d : Double W⦄ ⦃c : Conversions W⦄ ⦃f : Formats W⦄ where
  unfoldable pub tif : HlLimitOrderRequest W → Bool → String
  tif request ioc = if ioc then "Ioc" else if request.post_only then "Alo" else "Gtc"

  unfoldable pub price_text : HlLimitOrderRequest W → String
  price_text request = float_to_wire (round_sig_figs request.price 5)

  unfoldable pub size_text : HlLimitOrderRequest W → MetaEntry → String
  size_text request meta = float_to_wire (round_size request.size meta.sz_decimals)

  unfoldable pub order_action_json : HlLimitOrderRequest W → MetaEntry → Bool → Bool → String
  order_action_json request meta ioc reduce_only =
      "{\"type\":\"order\",\"orders\":[{\"a\":"
      ++ (to_string (pos meta.asset)
          ++ (",\"b\":"
              ++ (text_of request.is_buy
                  ++ (",\"p\":\""
                      ++ (price_text request
                          ++ ("\",\"s\":\""
                              ++ (size_text request meta
                                  ++ ("\",\"r\":"
                                      ++ (text_of reduce_only
                                          ++ (",\"t\":{\"limit\":{\"tif\":\""
                                              ++ (tif request ioc
                                                  ++ "\"}}}],\"grouping\":\"na\"}")))))))))))

  -- What `order_action_hash` packs.
  unfoldable pub order_action_bytes : HlLimitOrderRequest W → MetaEntry → Bool → Bool → ByteBuffer
  order_action_bytes request meta ioc reduce_only =
      let out = mp_pack_map_size [] 3 in
      let out = mp_pack_str out (codes "type") in
      let out = mp_pack_str out (codes "order") in
      let out = mp_pack_str out (codes "orders") in
      let out = mp_pack_array_size out 1 in
      let out = mp_pack_map_size out 6 in
      let out = mp_pack_str out (codes "a") in
      let out = mp_pack_uint out meta.asset in
      let out = mp_pack_str out (codes "b") in
      let out = mp_pack_bool out request.is_buy in
      let out = mp_pack_str out (codes "p") in
      let out = mp_pack_str out (codes (price_text request)) in
      let out = mp_pack_str out (codes "s") in
      let out = mp_pack_str out (codes (size_text request meta)) in
      let out = mp_pack_str out (codes "r") in
      let out = mp_pack_bool out reduce_only in
      let out = mp_pack_str out (codes "t") in
      let out = mp_pack_map_size out 1 in
      let out = mp_pack_str out (codes "limit") in
      let out = mp_pack_map_size out 1 in
      let out = mp_pack_str out (codes "tif") in
      let out = mp_pack_str out (codes (tif request ioc)) in
      let out = mp_pack_str out (codes "grouping") in mp_pack_str out (codes "na")

unfoldable pub cancel_action_json : MetaEntry → String → String
cancel_action_json meta oid =
    "{\"type\":\"cancel\",\"cancels\":[{\"a\":"
    ++ (to_string (pos meta.asset) ++ (",\"o\":" ++ (oid ++ "}]}")))

-- What `cancel_action_hash` packs; `std::stoull` throws where the id does not begin with a number.
unfoldable pub cancel_action_bytes : MetaEntry → String → Option ByteBuffer
cancel_action_bytes meta oid = stoull_prefix oid >>= (λ id.
    let out = mp_pack_map_size [] 2 in
    let out = mp_pack_str out (codes "type") in
    let out = mp_pack_str out (codes "cancel") in
    let out = mp_pack_str out (codes "cancels") in
    let out = mp_pack_array_size out 1 in
    let out = mp_pack_map_size out 2 in
    let out = mp_pack_str out (codes "a") in
    let out = mp_pack_uint out meta.asset in
    let out = mp_pack_str out (codes "o") in some (mp_pack_uint out id))

-- The signature as JSON, of its 64 bytes and the recovery number.
unfoldable pub signature_json : List ℕ → ℕ → String
signature_json compact recid =
    "{\"r\":\""
    ++ (bytes_to_hex (take 32 compact) true
        ++ ("\",\"s\":\""
            ++ (bytes_to_hex (drop 32 compact) true
                ++ ("\",\"v\":" ++ (to_string (pos (27 + recid)) ++ "}")))))

-- The request that `post_exchange_action` sends.
unfoldable pub post_body : HyperliquidConfig → String → ℕ → String → String
post_body config action_json nonce signature =
    "{\"action\":"
    ++ (action_json
        ++ (",\"nonce\":"
            ++ (to_string (pos nonce)
                ++ (",\"signature\":"
                    ++ (signature
                        ++ (",\"vaultAddress\":"
                            ++ (vault_part config.vault_address ++ ",\"expiresAfter\":null}")))))))
  where
    vault_part : Option String → String
    vault_part none = "null"
    vault_part (some address) = "\"" ++ (address ++ "\"")
