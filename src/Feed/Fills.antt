-- ===== src/Feed/Fills.antt =====
-- `HlFillFeed`: the fills of the account on Hyperliquid.
use Prim.Native.String.{String, ◌++◌ as append}
use hl_maker_lighter_arb_cpp.Common.{
  Bool, true, false, not, ◌≡◌, refl, List, [], ◌∷◌, ◌++◌, All, if◌then◌else◌, arith,
}
use hl_maker_lighter_arb_cpp.Double.{Double}
use hl_maker_lighter_arb_cpp.Scan.{contains}
use hl_maker_lighter_arb_cpp.Convert.{Conversions}
use hl_maker_lighter_arb_cpp.Feed.HlParse.{ParsedFill, parse_hl_fill}

-- `connected` is what the connection says.
pub record HlFillFeed : Type 0 where
  pub user_address : String
  pub connected : Bool
  pub subscribed : Bool

unfoldable pub is_subscribed : HlFillFeed → Bool
is_subscribed f = if f.connected then f.subscribed else false

unfoldable pub fill_subscription : HlFillFeed → String
fill_subscription f =
    append "{\"method\":\"subscribe\",\"subscription\":{\"type\":\"userFills\",\"user\":\""
      (append f.user_address "\"}}")

-- The connection is lost: the feed, and what it sends.
unfoldable pub on_fills_lost : HlFillFeed → HlFillFeed × List String
on_fills_lost f = (record f { connected = false; subscribed = false }, fill_subscription f ∷ [])

module _ {W : Type 0} ⦃d : Double W⦄ ⦃c : Conversions W⦄ where
  -- The feed, and the fills that it passes on.
  unfoldable pub on_fill_message : HlFillFeed → String → HlFillFeed × List (ParsedFill W)
  on_fill_message f msg =
      if not f.subscribed
      then if contains msg "subscriptionResponse"
        then (record f { subscribed = true }, [])
        else (f, [])
      else (f, parse_hl_fill msg)

  unfoldable pub on_fill_messages : HlFillFeed → List String → HlFillFeed × List (ParsedFill W)
  on_fill_messages f [] = (f, [])
  on_fill_messages f (msg ∷ msgs) =
      let (f', fills) = on_fill_message f msg in
      let (f'', later) = on_fill_messages f' msgs in (f'', fills ++ later)

  deaf :
      (f : HlFillFeed) (msgs : List String)
      → f.subscribed ≡ false
      → All (λ msg. contains msg "subscriptionResponse" ≡ false) msgs
      → on_fill_messages f msgs ≡ (f, [])
  unfolding on_fill_messages on_fill_message
  deaf f [] off quiet = refl
  deaf f (msg ∷ msgs) off (other, quiet) =
      let now : on_fill_message f msg ≡ (f, []) = ground arith in
      let later = deaf f msgs off quiet in rw (now, later)

  -- After a loss of the connection no fill is passed on until a response to the subscription arrives:
  -- what the venue reports before that is dropped, and the feed reports itself as not subscribed.
  fills_lost_until_response :
      (f : HlFillFeed) (msgs : List String)
      → All (λ msg. contains msg "subscriptionResponse" ≡ false) msgs
      → let (f', _) = on_fills_lost f in
        let (f'', fills) = on_fill_messages (record f' { connected = true }) msgs in
        (fills ≡ []) × (is_subscribed f'' ≡ false)
  unfolding on_fills_lost is_subscribed
  fills_lost_until_response f msgs quiet =
      let f' : HlFillFeed = record f { connected = true; subscribed = false } in
      let same = deaf f' msgs refl quiet in rw same (refl, refl)
