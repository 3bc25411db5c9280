-- ===== src/Feed/Account.antt =====
-- `LighterPositionFeed` and `LighterAccountFeed`: what Lighter says of the account. A map is a function, and
-- a wait is asked for when it ends: its condition holds then, or the time is up. An exception of
-- a parser leaves the handler.
use Prim.Native.String.{String, ◌++◌ as append}
use text.Mathlib.Text.{◌==◌ as str_eq, starts_with}
use hl_maker_lighter_arb_cpp.Common.{
  ℕ, suc, Bool, true, false, not, ◌&&◌, ◌||◌, Option, none, some, List, [], ◌∷◌, if◌then◌else◌,
}
use hl_maker_lighter_arb_cpp.Common.Int.{ℤ, pos, leb_ℤ}
use hl_maker_lighter_arb_cpp.Common.Text.{to_string}
use hl_maker_lighter_arb_cpp.Double.{Double, lit, ◌-ᵈ◌, ◌<ᵈ◌}
use hl_maker_lighter_arb_cpp.Types.{LighterPositionSnapshot}
use hl_maker_lighter_arb_cpp.Exchange.{LighterRestingOrder}
use hl_maker_lighter_arb_cpp.Scan.{◌>>=◌, contains}
use hl_maker_lighter_arb_cpp.Convert.{Conversions}
use hl_maker_lighter_arb_cpp.Feed.LighterParse.{
  LighterOrderUpdate, LighterTradeFill, eq_ℤ, parse_lighter_position_update,
  parse_lighter_order_updates, parse_lighter_account_trades,
}

pub record AccountConfig : Type 0 where
  pub account_index : ℤ
  pub market_index : ℤ
  pub auth_token : String

pub record LighterPositionFeed (W : Type 0) : Type 0 where
  pub config : AccountConfig
  pub latest : Option (LighterPositionSnapshot W)
  pub version : ℕ
  pub subscribed : Bool

unfoldable pub channel_subscription : (channel auth_token : String) → String
channel_subscription channel auth_token =
    append "{\"type\":\"subscribe\",\"channel\":\""
      (append channel (append "\",\"auth\":\"" (append auth_token "\"}")))

unfoldable pub position_subscription : AccountConfig → String
position_subscription config =
    channel_subscription (append "account_all_positions/" (to_string config.account_index))
      config.auth_token

unfoldable pub account_subscriptions : AccountConfig → List String
account_subscriptions config =
    channel_subscription
      (append "account_orders/"
        (append (to_string config.market_index) (append "/" (to_string config.account_index))))
      config.auth_token
    ∷ channel_subscription (append "account_all_trades/" (to_string config.account_index))
        config.auth_token
    ∷ []

abbrev pub pong : String
pong = "{\"type\":\"pong\"}"

module _ {W : Type 0} where
  -- `resting()` and `cancelled()`.
  unfoldable pub resting : LighterOrderUpdate W → Bool
  resting o = str_eq o.status "open" || str_eq o.status "in-progress"

  unfoldable pub cancelled : LighterOrderUpdate W → Bool
  cancelled o = starts_with o.status "canceled"

  unfoldable pub put_order :
      (ℤ → Option (LighterOrderUpdate W))
      → ℤ
      → LighterOrderUpdate W
      → ℤ
      → Option (LighterOrderUpdate W)
  put_order m k o j = if eq_ℤ k j then some o else m j

  unfoldable pub on_position_disconnect :
      LighterPositionFeed W → LighterPositionFeed W × List String
  on_position_disconnect f = (record f { subscribed = false }, position_subscription f.config ∷ [])

pub record LighterAccountFeed (W : Type 0) : Type 0 where
  pub config : AccountConfig
  pub orders_by_client : ℤ → Option (LighterOrderUpdate W)
  pub orders_by_index : ℤ → Option (LighterOrderUpdate W)
  pub orders_subscribed : Bool
  pub trades_subscribed : Bool

-- What the position feed's handler does: the feed, what it sends, and whether it ended without an
-- exception.
pub record PositionHandled (W : Type 0) : Type 0 where
  pub feed : LighterPositionFeed W
  pub sends : List String
  pub completed : Bool

-- What the account feed's handler does: the feed, what it sends, the fills that it passes on, and whether
-- it ended without an exception.
pub record AccountHandled (W : Type 0) : Type 0 where
  pub feed : LighterAccountFeed W
  pub sends : List String
  pub fills : List (LighterTradeFill W)
  pub completed : Bool

module _ {W : Type 0} where
  unfoldable pub on_account_disconnect : LighterAccountFeed W → AccountHandled W
  on_account_disconnect f = record {
    feed = record f { orders_subscribed = false; trades_subscribed = false };
    sends = account_subscriptions f.config;
    fills = [];
    completed = true;
  }

  unfoldable pub store_order : LighterAccountFeed W → LighterOrderUpdate W → LighterAccountFeed W
  store_order f o = record f {
    orders_by_client = put_order f.orders_by_client o.client_order_index o;
    orders_by_index = put_order f.orders_by_index o.order_index o;
  }

  -- The channels that a message says are subscribed.
  unfoldable pub note_channels : LighterAccountFeed W → String → LighterAccountFeed W
  note_channels f msg = record f {
    orders_subscribed = f.orders_subscribed || contains msg "\"subscribed/account_orders\"";
    trades_subscribed = f.trades_subscribed || contains msg "\"subscribed/account_all_trades\"";
  }

  -- The orders of a message, in turn.
  unfoldable pub store_orders :
      List (LighterOrderUpdate W) → LighterAccountFeed W → LighterAccountFeed W
  store_orders [] f = f
  store_orders (o ∷ more) f = store_orders more (store_order f o)

  unfoldable pub wait_for_order_resting : LighterAccountFeed W → ℤ → Option LighterRestingOrder
  wait_for_order_resting f client_order_index = f.orders_by_client client_order_index >>= (λ o.
      if resting o && not (leb_ℤ o.order_index (pos 0))
      then some (record {
        client_order_index = o.client_order_index;
        order_index = o.order_index;
        resting = true;
      })
      else none)

  unfoldable pub wait_for_cancel : LighterAccountFeed W → ℤ → Bool
  wait_for_cancel f order_index = elim (f.orders_by_index order_index) [
    | none ↦ false
    | some o ↦ cancelled o
  ]

module _ {W : Type 0} ⦃d : Double W⦄ where
  unfoldable pub wait_for_position_change :
      LighterPositionFeed W → (baseline_size : W) → Option (LighterPositionSnapshot W)
  wait_for_position_change f baseline_size =
      f.latest
      >>= (λ latest. if lit 1 3 <ᵈ d.fabs (latest.size -ᵈ baseline_size) then some latest else none)

module _ {W : Type 0} ⦃d : Double W⦄ ⦃c : Conversions W⦄ where
  unfoldable pub on_position_message : LighterPositionFeed W → String → PositionHandled W
  on_position_message f msg =
      if contains msg "\"connected\"" && not f.subscribed
      then record { feed = f; sends = position_subscription f.config ∷ []; completed = true }
      else if contains msg "\"ping\""
      then record { feed = f; sends = pong ∷ []; completed = true }
      else let noted : LighterPositionFeed W = record f {
        subscribed = f.subscribed || contains msg "\"subscribed/account_all_positions\"";
      } in
        elim (parse_lighter_position_update {W = W} msg f.config.market_index) [
          | none ↦ record { feed = noted; sends = []; completed = false }
          | some none ↦ record { feed = noted; sends = []; completed = true }
          | some (some snap) ↦ record {
            feed = record noted { latest = some snap; version = suc f.version };
            sends = [];
            completed = true;
          }
        ]

  unfoldable pub on_account_message : LighterAccountFeed W → String → AccountHandled W
  on_account_message f msg =
      if contains msg "\"connected\""
      then record { feed = f; sends = account_subscriptions f.config; fills = []; completed = true }
      else if contains msg "\"ping\""
      then record { feed = f; sends = pong ∷ []; fills = []; completed = true }
      else let noted = note_channels f msg in
        elim (parse_lighter_order_updates {W = W} msg f.config.market_index) [
          | none ↦ record { feed = noted; sends = []; fills = []; completed = false }
          | some orders ↦
              let stored = store_orders orders noted in
              elim (parse_lighter_account_trades {W = W} msg f.config.account_index
                f.config.market_index) [
                  | none ↦ record { feed = stored; sends = []; fills = []; completed = false }
                  | some fills ↦ record {
                    feed = stored;
                    sends = [];
                    fills = fills;
                    completed = true;
                  }
                ]
        ]
