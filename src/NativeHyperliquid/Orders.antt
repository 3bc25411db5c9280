-- ===== src/NativeHyperliquid/Orders.antt =====
-- `get_bbo`, `place_limit_order`, `place_ioc_order`, `cancel_order` and `reduce_position`. Latencies are
-- left out.
use Prim.Native.Char.{Char}
use Prim.Native.String.{String, len}
use text.Mathlib.Text.{starts_with}
use hl_maker_lighter_arb_cpp.Common.{
  ℕ, Bool, true, false, not, Option, none, some, List, [], ◌∷◌, if◌then◌else◌,
}
use hl_maker_lighter_arb_cpp.Common.Int.{pos}
use hl_maker_lighter_arb_cpp.Double.{Double, lit, ◌*ᵈ◌}
use hl_maker_lighter_arb_cpp.Types.{Bbo, mid}
use hl_maker_lighter_arb_cpp.Exchange.{
  HlLimitOrderRequest, HlLimitOrderAck, HlIocOrderRequest, HlIocOrderAck, HlCancelAck, HlReduceAck,
}
use hl_maker_lighter_arb_cpp.Scan.{
  ◌>>=◌, contains, drop, span, is_char, regex_search, digits_group, quoted_group,
}
use hl_maker_lighter_arb_cpp.Convert.{Conversions, first_match_as_double}
use hl_maker_lighter_arb_cpp.NativeHyperliquid.Client.{
  HyperliquidConfig, Meta, World, Formats, ensure_meta, meta_for_coin,
}
use hl_maker_lighter_arb_cpp.NativeHyperliquid.Action.{
  order_action_json, order_action_bytes, cancel_action_json, cancel_action_bytes, post_body,
}
use hl_maker_lighter_arb_cpp.NativeHyperliquid.Sign.{action_hash, sign_l1_action}

pub record Client : Type 0 where
  pub config : HyperliquidConfig
  pub meta : Meta

-- A call's outcome: the client, what was posted, and the answer, where none is an exception.
pub record Call (A : Type 0) : Type 0 where
  pub client : Client
  pub posted : List String
  pub answer : Option A

-- `post_exchange_action`: the request, where nothing threw before it is posted, and the response.
unfoldable pub post_exchange_action :
    HyperliquidConfig → World → String → Option (List ℕ) → Option (String × String)
post_exchange_action config w action_json hash = hash >>= (λ h.
    sign_l1_action config w h >>= (λ signature. w.action_transport >>= (λ transport.
      let body = post_body config action_json w.now_ms signature in some (body, transport body))))

-- The call with what it posted, and the answer read from the response.
unfoldable pub answered :
    {A : Type 0} → Client → (String → Option A) → Option (String × String) → Call A
answered t read none = record { client = t; posted = []; answer = none }
answered t read (some (body, response)) = record {
  client = t;
  posted = body ∷ [];
  answer = read response;
}

unfoldable pub is_ok : String → Bool
is_ok body = contains body "\"status\":\"ok\""

abbrev not_brace : Char → Bool
not_brace c = not (is_char b'}' c)

-- `([0-9]+)\}`
unfoldable pub resting_group : String → Option String
resting_group s =
    digits_group s >>= (λ oid. if starts_with (drop s (len oid)) "}" then some oid else none)

-- The last `"oid":([0-9]+)` of a text.
unfoldable pub last_oid : String → Option String
last_oid String.[] = none
last_oid (String.◌∷◌ ch s) = elim (last_oid s) [
  | some oid ↦ some oid
  | none ↦
      if starts_with (String.◌∷◌ ch s) "\"oid\":"
      then digits_group (drop (String.◌∷◌ ch s) 6)
      else none
]

-- `[^}]*"oid":([0-9]+)`, which takes as much as it can.
unfoldable pub filled_group : String → Option String
filled_group s = last_oid (span not_brace s)

unfoldable pub placed_oid : String → Option String
placed_oid body = elim (regex_search body "\"resting\":{\"oid\":" resting_group) [
  | some oid ↦ some oid
  | none ↦ regex_search body "\"filled\":{" filled_group
]

abbrev pub limit_ack : String → Option String → HlLimitOrderAck
limit_ack body none = record { ok = false; message = body; oid = "" }
limit_ack body (some oid) = record { ok = true; message = "ok"; oid = oid }

unfoldable pub read_limit_ack : String → Option HlLimitOrderAck
read_limit_ack body = some (limit_ack body (placed_oid body))

module _ {W : Type 0} ⦃d : Double W⦄ ⦃c : Conversions W⦄ ⦃f : Formats W⦄ where
  unfoldable pub get_bbo : World → Option (Bbo W)
  get_bbo w = w.book_body >>= (λ body.
      first_match_as_double body "\"levels\":[[{\"px\":\"" quoted_group >>= (λ bid.
        first_match_as_double body "],[{\"px\":\"" quoted_group
        >>= (λ ask. some (record { bid = bid; ask = ask; quote_age_ms = pos 0 }))))

  -- A number of the response: 0 where its key is missing, and an exception where only its form is not
  -- as expected.
  unfoldable pub filled_number : String → String → String → Option W
  filled_number body key pattern =
      if contains body key then first_match_as_double body pattern quoted_group else some (lit 0 0)

  unfoldable pub read_ioc_ack : String → Option (HlIocOrderAck W)
  read_ioc_ack body = filled_number body "totalSz" "\"totalSz\":\"" >>= (λ filled_size.
      filled_number body "avgPx" "\"avgPx\":\"" >>= (λ avg_fill_price. some (record {
        ok = is_ok body;
        message = body;
        filled_size = filled_size;
        avg_fill_price = avg_fill_price;
      })))

  unfoldable pub read_reduce_ack : String → Option (HlReduceAck W)
  read_reduce_ack body = filled_number body "totalSz" "\"totalSz\":\"" >>= (λ filled_size.
      filled_number body "avgPx" "\"avgPx\":\"" >>= (λ avg_fill_price. some (record {
        ok = is_ok body;
        message = body;
        filled_size = filled_size;
        avg_fill_price = avg_fill_price;
      })))

  -- An order is signed and posted; the table of coins is fetched first where it is empty.
  unfoldable pub post_order :
      {A : Type 0}
      → (String → Option A)
      → Client
      → World
      → HlLimitOrderRequest W
      → Bool
      → Bool
      → Call A
  post_order read t w request ioc reduce_only =
      let fetched = ensure_meta t.meta w in
      answered (record t { meta = fetched.meta }) read
        (meta_for_coin fetched request.coin >>= (λ meta.
          post_exchange_action t.config w (order_action_json request meta ioc reduce_only)
            (action_hash t.config (order_action_bytes request meta ioc reduce_only) w.now_ms)))

  unfoldable pub place_limit_order : Client → World → HlLimitOrderRequest W → Call HlLimitOrderAck
  place_limit_order t w request =
      if request.dry_run
      then record {
        client = t;
        posted = [];
        answer = some (record { ok = true; message = "dry-run"; oid = "dry_oid" });
      }
      else post_order read_limit_ack t w request false false

  unfoldable pub place_ioc_order : Client → World → HlIocOrderRequest W → Call (HlIocOrderAck W)
  place_ioc_order t w request =
      if request.dry_run
      then record {
        client = t;
        posted = [];
        answer = some (record {
          ok = true;
          message = "dry-run";
          filled_size = request.size;
          avg_fill_price = request.price;
        });
      }
      else post_order read_ioc_ack t w
          (record {
            coin = request.coin;
            is_buy = request.is_buy;
            price = request.price;
            size = request.size;
            post_only = false;
            dry_run = false;
          })
          true false

  -- The order that reduces a position: 0.3 % through the book.
  unfoldable pub reduce_request : String → Bool → W → Bbo W → HlLimitOrderRequest W
  reduce_request coin is_buy size bbo = record {
    coin = coin;
    is_buy = is_buy;
    price = if is_buy then bbo.ask *ᵈ lit 1003 3 else bbo.bid *ᵈ lit 997 3;
    size = size;
    post_only = false;
    dry_run = false;
  }

  unfoldable pub reduce_position : Client → World → String → Bool → W → Bool → Call (HlReduceAck W)
  reduce_position t w coin is_buy size dry_run =
      if dry_run
      then record {
        client = t;
        posted = [];
        answer = get_bbo w >>= (λ bbo. some (record {
          ok = true;
          message = "dry-run";
          filled_size = size;
          avg_fill_price = mid bbo;
        }));
      }
      else elim (get_bbo w) [
        | none ↦ record { client = t; posted = []; answer = none }
        | some bbo ↦ post_order read_reduce_ack t w (reduce_request coin is_buy size bbo) true true
      ]

unfoldable pub read_cancel_ack : String → String → Option HlCancelAck
read_cancel_ack oid body = some (record { ok = is_ok body; message = body; oid = oid })

unfoldable pub cancel_order : Client → World → String → String → Bool → Call HlCancelAck
cancel_order t w coin oid dry_run =
    let fetched = ensure_meta t.meta w in
    if dry_run
    then record {
      client = t;
      posted = [];
      answer = some (record { ok = true; message = "dry-run"; oid = oid });
    }
    else answered (record t { meta = fetched.meta }) (read_cancel_ack oid)
        (meta_for_coin fetched coin >>= (λ meta.
          post_exchange_action t.config w (cancel_action_json meta oid)
            (cancel_action_bytes meta oid >>= (λ action. action_hash t.config action w.now_ms))))
