-- ===== src/NativeHyperliquid/Signed.antt =====
-- What is posted is signed, and what an answer rests on.
use Prim.Native.String.{String}
use mathlib.Core.Option.{some-injective}
use hl_maker_lighter_arb_cpp.Common.{
  ℕ, ◌≡◌, ◌∙◌, refl, sym, ap, Bool, true, false, Option, none, some, List, [], ◌∷◌, ◌++◌, length,
  ◌==◌, ==_iff, if◌then◌else◌,
}
use hl_maker_lighter_arb_cpp.Double.{Double}
use hl_maker_lighter_arb_cpp.Exchange.{HlLimitOrderRequest}
use hl_maker_lighter_arb_cpp.Scan.{◌>>=◌, >>=-eq-some}
use hl_maker_lighter_arb_cpp.Convert.{Conversions}
use hl_maker_lighter_arb_cpp.Msgpack.Bytes.{ByteBuffer, big_endian}
use hl_maker_lighter_arb_cpp.Crypto.Hash.{keccak256}
use hl_maker_lighter_arb_cpp.Crypto.Hex.{hex_to_bytes}
use hl_maker_lighter_arb_cpp.Crypto.Reference.{keccak}
use hl_maker_lighter_arb_cpp.Crypto.Digest.{keccak256_lem}
use hl_maker_lighter_arb_cpp.NativeHyperliquid.Client.{
  HyperliquidConfig, MetaEntry, World, Formats, ensure_meta, meta_for_coin,
}
use hl_maker_lighter_arb_cpp.NativeHyperliquid.Action.{
  order_action_json, order_action_bytes, signature_json, post_body,
}
use hl_maker_lighter_arb_cpp.NativeHyperliquid.Sign.{
  vault_bytes, append_vault_and_nonce, action_hash, digest, sign_l1_action,
}
use hl_maker_lighter_arb_cpp.NativeHyperliquid.Orders.{
  Client, post_exchange_action, answered, post_order,
}

-- The request carries a signature, under the configured key, of the digest of the action, the nonce and
-- the vault.
abbrev pub Signed : HyperliquidConfig → World → ByteBuffer → String → String → Type 0
Signed config w action action_json body =
    (priv : List ℕ) × (vault : List ℕ) × (signed : List ℕ × ℕ) × (hex_to_bytes config.private_key
      ≡ some priv)
    × (length priv ≡ 32)
    × (vault_bytes config ≡ some vault)
    × (w.sign (digest (keccak (action ++ (big_endian 8 w.now_ms ++ vault)))) priv ≡ some signed)
    × (body ≡ post_body config action_json w.now_ms (signature_json signed.0 signed.1))

if-eq-some {ℓ} :
    {A : Type ℓ} (b : Bool) (o : Option A) {a : A}
    → (if b then o else none) ≡ some a
    → (b ≡ true) × (o ≡ some a)
if-eq-some true o e = (refl, e)
if-eq-some false o e = cc

action_hash-eq-some :
    (config : HyperliquidConfig) (action : ByteBuffer) (nonce : ℕ) (hash : List ℕ)
    → action_hash config action nonce ≡ some hash
    → (vault : List ℕ) × (vault_bytes config ≡ some vault)
      × (hash ≡ keccak (action ++ (big_endian 8 nonce ++ vault)))
unfolding action_hash append_vault_and_nonce
action_hash-eq-some config action nonce hash e =
    let (out, appended, hashed) =
      >>=-eq-some (append_vault_and_nonce config action nonce) (λ o. some (keccak256 o)) e in
    let (vault, found, is) =
      >>=-eq-some (vault_bytes config) (λ v. some (action ++ (big_endian 8 nonce ++ v))) appended in
    (
      vault,
      found,
      sym (some-injective _ _ hashed) ∙ keccak256_lem out ∙ ap keccak (sym (some-injective _ _ is)),
    )

sign_l1_action-eq-some :
    (config : HyperliquidConfig) (w : World) (hash : List ℕ) (signature : String)
    → sign_l1_action config w hash ≡ some signature
    → (priv : List ℕ) × (signed : List ℕ × ℕ) × (hex_to_bytes config.private_key ≡ some priv)
      × (length priv ≡ 32)
      × (w.sign (digest hash) priv ≡ some signed)
      × (signature ≡ signature_json signed.0 signed.1)
unfolding sign_l1_action
sign_l1_action-eq-some config w hash signature e =
    let (priv, key, rest) = >>=-eq-some (hex_to_bytes config.private_key) _ e in
    let (wide, signs) =
      if-eq-some (length priv == 32)
        (w.sign (digest hash) priv >>= (λ s. some (signature_json s.0 s.1))) rest in
    let (signed, done, is) =
      >>=-eq-some (w.sign (digest hash) priv) (λ s. some (signature_json s.0 s.1)) signs in
    (priv, signed, key, (==_iff (length priv) 32).0 wide, done, sym (some-injective _ _ is))

post_exchange_action-Signed :
    (config : HyperliquidConfig) (w : World) (action : ByteBuffer)
    (action_json body response : String)
    → post_exchange_action config w action_json (action_hash config action w.now_ms)
      ≡ some (body, response)
    → Signed config w action action_json body
unfolding post_exchange_action
post_exchange_action-Signed config w action action_json body response e =
    let (hash, hashed, rest) = >>=-eq-some (action_hash config action w.now_ms) _ e in
    let (signature, signs, posts) = >>=-eq-some (sign_l1_action config w hash) _ rest in
    let (transport, channel, is) = >>=-eq-some w.action_transport _ posts in
    let (vault, found, of_action) = action_hash-eq-some config action w.now_ms hash hashed in
    let (priv, signed, key, wide, done, text) =
      sign_l1_action-eq-some config w hash signature signs in
    (
      priv,
      vault,
      signed,
      key,
      wide,
      found,
      ap (λ h. w.sign (digest h) priv) (sym of_action) ∙ done,
      ap (λ (p : String × String). p.0) (sym (some-injective _ _ is))
          ∙ ap (post_body config action_json w.now_ms) text,
    )

pub answered-posted :
    {A : Type 0} (t : Client) (read : String → Option A) (o : Option (String × String))
    (body : String)
    → (answered t read o).posted ≡ body ∷ []
    → (response : String) × (o ≡ some (body, response))
      × ((answered t read o).answer ≡ read response)
unfolding answered
answered-posted t read none body e = cc
answered-posted t read (some (sent, response)) body e = (response, cc e, refl)

module _ {W : Type 0} ⦃d : Double W⦄ ⦃c : Conversions W⦄ ⦃f : Formats W⦄ where
  -- Whatever an order call posts is signed: the request holds the action as JSON and a signature, under the
  -- configured key of 32 bytes, of the digest of Keccak-256 of the same order's packed action, with the
  -- nonce that the request names and the vault of the configuration; the coin's entry comes from the table.
  pub post_order-Signed :
      {A : Type 0} (read : String → Option A) (t : Client) (w : World)
      (request : HlLimitOrderRequest W) (ioc reduce_only : Bool) (body : String)
      → (post_order read t w request ioc reduce_only).posted ≡ body ∷ []
      → (meta : MetaEntry) × (meta_for_coin (ensure_meta t.meta w) request.coin ≡ some meta)
        × Signed t.config w
            (order_action_bytes request meta ioc reduce_only)
            (order_action_json request meta ioc reduce_only)
            body
  unfolding post_order
  post_order-Signed read t w request ioc reduce_only body posted =
      let (response, done, answer) =
        answered-posted (record t { meta = (ensure_meta t.meta w).meta }) read _ body posted in
      let (meta, found, posts) =
        >>=-eq-some (meta_for_coin (ensure_meta t.meta w) request.coin) _ done in
      (
        meta,
        found,
        post_exchange_action-Signed t.config w (order_action_bytes request meta ioc reduce_only)
            (order_action_json request meta ioc reduce_only) body response posts,
      )
