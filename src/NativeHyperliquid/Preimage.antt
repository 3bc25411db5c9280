-- ===== src/NativeHyperliquid/Preimage.antt =====
-- What is hashed for an order says what the order is.
use Prim.Native.String.{String}
use text.Mathlib.TextEquality.{Char-path}
use mathlib.Core.Path.{ap₂}
use mathlib.Core.Option.{some-injective}
use hl_maker_lighter_arb_cpp.Common.{
  ℕ, zero, suc, ◌^◌, ◌<◌, ◌≡◌, refl, sym, ap, ◌∙◌, inl, inr, Option-cases, Bool, true, false, some,
  List, [], ◌∷◌, ◌++◌, length, length-append, All, get_or, if◌then◌else◌, arith,
}
use hl_maker_lighter_arb_cpp.Double.{Double}
use hl_maker_lighter_arb_cpp.Exchange.{HlLimitOrderRequest}
use hl_maker_lighter_arb_cpp.Convert.{Conversions}
use hl_maker_lighter_arb_cpp.Msgpack.Bytes.{ByteBuffer, big_endian, read_big_endian}
use hl_maker_lighter_arb_cpp.Msgpack.Unpack.{Token, uint, bool, str, array_size, map_size}
use hl_maker_lighter_arb_cpp.Msgpack.RoundTrip.{read-big_endian_eight}
use hl_maker_lighter_arb_cpp.Msgpack.Message.{pack, pack_all, Fits, pack_all_injective}
use hl_maker_lighter_arb_cpp.NativeHyperliquid.Client.{HyperliquidConfig, MetaEntry, Formats}
use hl_maker_lighter_arb_cpp.NativeHyperliquid.Action.{
  codes, tif, price_text, size_text, order_action_bytes,
}
use hl_maker_lighter_arb_cpp.NativeHyperliquid.Sign.{vault_bytes, append_vault_and_nonce}

-- Two splits of one list whose second parts are equally long are the same split.
append-injective : (a b s t : List ℕ) → length s ≡ length t → a ++ s ≡ b ++ t → (a ≡ b) × (s ≡ t)
append-injective [] [] s t same e = (refl, e)
append-injective [] (y ∷ b) s t same e = absurd (omega (arith, ap length e, length-append b t))
append-injective (x ∷ a) [] s t same e = absurd (omega (arith, ap length e, length-append a s))
append-injective (x ∷ a) (y ∷ b) s t same e =
    (ap₂ ◌∷◌ (cc) (append-injective a b s t same (cc)).0, (append-injective a b s t same (cc)).1)

codes-injective : (s t : String) → codes s ≡ codes t → s ≡ t
codes-injective String.[] String.[] e = refl
codes-injective String.[] (String.◌∷◌ d t) e = cc
codes-injective (String.◌∷◌ c s) String.[] e = cc
codes-injective (String.◌∷◌ c s) (String.◌∷◌ d t) e =
    ap₂ String.◌∷◌ (Char-path c d (cc)) (codes-injective s t (cc))

length-big_endian : (k v : ℕ) → length (big_endian k v) ≡ k
unfolding big_endian
length-big_endian zero v = refl
length-big_endian (suc k) v = ap suc (length-big_endian k v)

big_endian-injective : (n m : ℕ) → n < 2 ^ 64 → m < 2 ^ 64 → big_endian 8 n ≡ big_endian 8 m → n ≡ m
big_endian-injective n m small small' e =
    ap (λ (p : ℕ × ByteBuffer). p.0)
      (some-injective _ _ (
        sym (read-big_endian_eight n [] small)
        ∙ ap (λ b. read_big_endian 8 0 (b ++ [])) e
        ∙ read-big_endian_eight m [] small'))

-- What stands behind the action.
abbrev suffix : ℕ → List ℕ → ByteBuffer
suffix nonce vault = big_endian 8 nonce ++ vault

-- The buffer is the action, the nonce and what the configuration says of the vault.
append_vault_and_nonce-splits :
    (config : HyperliquidConfig) (action action' x y : ByteBuffer) (n m : ℕ)
    → append_vault_and_nonce config action n ≡ some x
    → append_vault_and_nonce config action' m ≡ some y
    → (vault : List ℕ) × (x ≡ action ++ suffix n vault) × (y ≡ action' ++ suffix m vault)
unfolding append_vault_and_nonce
append_vault_and_nonce-splits config action action' x y n m is is' =
    elim (Option-cases (vault_bytes config)) [
      | inl missing ↦ cc missing
      | inr (vault, found) ↦ (
        vault,
        some-injective _ _ (sym is ∙ rw found refl),
        some-injective _ _ (sym is' ∙ rw found refl),
      )
    ]

nonce_and_action :
    (config : HyperliquidConfig) (action action' x : ByteBuffer) (n m : ℕ)
    → n < 2 ^ 64
    → m < 2 ^ 64
    → append_vault_and_nonce config action n ≡ some x
    → append_vault_and_nonce config action' m ≡ some x
    → (action ≡ action') × (n ≡ m)
nonce_and_action config action action' x n m small small' is is' = (
  parts.0,
  big_endian-injective n m small small'
      (append-injective (big_endian 8 n) (big_endian 8 m) vault vault refl parts.1).0,
)
  where
    split : (vault : List ℕ) × (x ≡ action ++ suffix n vault) × (x ≡ action' ++ suffix m vault)
    split = append_vault_and_nonce-splits config action action' x x n m is is'

    vault : List ℕ
    vault = split.0

    parts : (action ≡ action') × (suffix n vault ≡ suffix m vault)
    parts =
        append-injective action action' (suffix n vault) (suffix m vault)
          (omega (
            arith,
            length-append (big_endian 8 n) vault,
            length-append (big_endian 8 m) vault,
            length-big_endian 8 n,
            length-big_endian 8 m,
          ))
          (sym split.1 ∙ split.2)

abbrev text_of_token : Token → List ℕ
text_of_token (uint n) = []
text_of_token (bool b) = []
text_of_token (str s) = s
text_of_token (array_size n) = []
text_of_token (map_size n) = []

abbrev text_at : List Token → ℕ → List ℕ
text_at ts i = text_of_token (get_or ts i (uint 0))

module _ {W : Type 0} ⦃d : Double W⦄ ⦃c : Conversions W⦄ ⦃f : Formats W⦄ where
  -- The message that the packed bytes are.
  abbrev order_tokens : HlLimitOrderRequest W → MetaEntry → Bool → Bool → List Token
  order_tokens request meta ioc reduce_only =
      map_size 3
      ∷ str (codes "type")
      ∷ str (codes "order")
      ∷ str (codes "orders")
      ∷ array_size 1
      ∷ map_size 6
      ∷ str (codes "a")
      ∷ uint meta.asset
      ∷ str (codes "b")
      ∷ bool request.is_buy
      ∷ str (codes "p")
      ∷ str (codes (price_text request))
      ∷ str (codes "s")
      ∷ str (codes (size_text request meta))
      ∷ str (codes "r")
      ∷ bool reduce_only
      ∷ str (codes "t")
      ∷ map_size 1
      ∷ str (codes "limit")
      ∷ map_size 1
      ∷ str (codes "tif")
      ∷ str (codes (tif request ioc))
      ∷ str (codes "grouping")
      ∷ str (codes "na")
      ∷ []

  order_action_bytes-pack_all :
      (request : HlLimitOrderRequest W) (meta : MetaEntry) (ioc reduce_only : Bool)
      → order_action_bytes request meta ioc reduce_only
        ≡ pack_all [] (order_tokens request meta ioc reduce_only)
  unfolding order_action_bytes pack_all pack
  order_action_bytes-pack_all request meta ioc reduce_only = refl

  -- What the writer has forms for: an index of 64 bits and numbers of less than 256 characters.
  abbrev pub IsWritable : HlLimitOrderRequest W → MetaEntry → Type 0
  IsWritable request meta =
      (meta.asset < 2 ^ 64)
      × (length (codes (price_text request)) < 256)
      × (length (codes (size_text request meta)) < 256)

  length-tif :
      (request : HlLimitOrderRequest W) (ioc : Bool) → length (codes (tif request ioc)) < 256
  unfolding tif
  length-tif request true = omega arith
  length-tif request false = short_of request.post_only
    where
      short_of : (b : Bool) → length (codes (if b then "Alo" else "Gtc")) < 256
      short_of true = omega arith
      short_of false = omega arith

  order_tokens-Fits :
      (request : HlLimitOrderRequest W) (meta : MetaEntry) (ioc reduce_only : Bool)
      → IsWritable request meta
      → All Fits (order_tokens request meta ioc reduce_only)
  order_tokens-Fits request meta ioc reduce_only (asset, price, size) =
      let short : length (codes (tif request ioc)) < 256 = length-tif request ioc in
      omega (arith, asset, price, size)

  -- Two orders for which the same bytes are hashed, on one configuration, are for the same coin, side, price
  -- and size as they are written, with the same flags, the same time in force and the same nonce: a signature
  -- is good for one order only.
  pub order_preimage-injective :
      (config : HyperliquidConfig) (request request' : HlLimitOrderRequest W)
      (meta meta' : MetaEntry) (ioc ioc' reduce_only reduce_only' : Bool) (nonce nonce' : ℕ)
      (x : ByteBuffer)
      → IsWritable request meta
      → IsWritable request' meta'
      → nonce < 2 ^ 64
      → nonce' < 2 ^ 64
      → append_vault_and_nonce config (order_action_bytes request meta ioc reduce_only) nonce
        ≡ some x
      → append_vault_and_nonce config (order_action_bytes request' meta' ioc' reduce_only') nonce'
        ≡ some x
      → (meta.asset ≡ meta'.asset)
        × (request.is_buy ≡ request'.is_buy)
        × (price_text request ≡ price_text request')
        × (size_text request meta ≡ size_text request' meta')
        × (reduce_only ≡ reduce_only')
        × (tif request ioc ≡ tif request' ioc')
        × (nonce ≡ nonce')
  order_preimage-injective config request request' meta meta' ioc ioc' reduce_only reduce_only'
        nonce nonce' x fits fits' small small' is is' =
      let parts =
        nonce_and_action config (order_action_bytes request meta ioc reduce_only)
          (order_action_bytes request' meta' ioc' reduce_only') x nonce nonce' small small' is
          is' in
      let same : order_tokens request meta ioc reduce_only
          ≡ order_tokens request' meta' ioc' reduce_only' =
        pack_all_injective _ _ (order_tokens-Fits request meta ioc reduce_only fits)
          (order_tokens-Fits request' meta' ioc' reduce_only' fits')
          (sym (order_action_bytes-pack_all request meta ioc reduce_only)
            ∙ parts.0
            ∙ order_action_bytes-pack_all request' meta' ioc' reduce_only') in
      (
        cc same,
        cc same,
        codes-injective _ _ (cc same),
        codes-injective _ _ (cc same),
        cc same,
        codes-injective _ _ (ap (λ ts. text_at ts 21) same),
        parts.1,
      )
