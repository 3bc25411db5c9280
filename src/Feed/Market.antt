-- ===== src/Feed/Market.antt =====
-- `AtomicBbo` and `MarketFeed`: the quotes of both venues and the trades of Hyperliquid. The clock is in
-- nanoseconds, and a reading of 0 is the epoch; what a feed sends, it sends in the order listed. Log lines
-- and performance counters are left out.
use Prim.Native.String.{String, ◌++◌ as append}
use hl_maker_lighter_arb_cpp.Common.{
  ℕ, ◌-◌, ◌/◌, Bool, true, false, not, ◌&&◌, ◌||◌, none, some, List, [], ◌∷◌, ltb, if◌then◌else◌,
}
use hl_maker_lighter_arb_cpp.Common.Int.{ℤ, pos}
use hl_maker_lighter_arb_cpp.Common.Text.{to_string}
use hl_maker_lighter_arb_cpp.Double.{Double, lit, ◌+ᵈ◌, ◌-ᵈ◌, ◌*ᵈ◌, ◌/ᵈ◌, ◌<ᵈ◌}
use hl_maker_lighter_arb_cpp.Types.{Bbo, SpreadSnapshot, TradeEvent, mid}
use hl_maker_lighter_arb_cpp.Scan.{contains}
use hl_maker_lighter_arb_cpp.Convert.{Conversions}
use hl_maker_lighter_arb_cpp.Feed.HlParse.{parse_hl_bbo, parse_hl_trades}
use hl_maker_lighter_arb_cpp.Feed.LighterParse.{parse_lighter_ticker}

pub record AtomicBbo (W : Type 0) : Type 0 where
  pub bid : W
  pub ask : W
  pub last_update_ns : ℕ

-- `has_on_trade`: a callback for trades is set.
pub record MarketFeed (W : Type 0) : Type 0 where
  pub hl_coin : String
  pub lighter_market_id : ℤ
  pub has_on_trade : Bool
  pub hl_bbo : AtomicBbo W
  pub lighter_bbo : AtomicBbo W
  pub hl_subscribed : Bool
  pub lighter_subscribed : Bool
  pub hl_trades_subscribed : Bool

-- What a handler does: the feed, what it sends, how often it calls `on_update_`, and the trades that it
-- passes on.
pub record Handled (W : Type 0) : Type 0 where
  pub feed : MarketFeed W
  pub sends : List String
  pub updates : ℕ
  pub trades : List (TradeEvent W)

unfoldable pub hl_subscription : (kind coin : String) → String
hl_subscription kind coin =
    append "{\"method\":\"subscribe\",\"subscription\":{\"type\":\""
      (append kind (append "\",\"coin\":\"" (append coin "\"}}")))

module _ {W : Type 0} where
  unfoldable pub store : W → W → (now_ns : ℕ) → AtomicBbo W
  store bid ask now_ns = record { bid = bid; ask = ask; last_update_ns = now_ns }

  unfoldable pub load : AtomicBbo W → (now_ns : ℕ) → Bbo W
  load b now_ns = record {
    bid = b.bid;
    ask = b.ask;
    quote_age_ms =
        if ltb 0 b.last_update_ns then pos ((now_ns - b.last_update_ns) / 1000000) else pos 999999;
  }

  unfoldable pub subscribe_hl : MarketFeed W → List String
  subscribe_hl f =
      if f.has_on_trade
      then hl_subscription "bbo" f.hl_coin ∷ hl_subscription "trades" f.hl_coin ∷ []
      else hl_subscription "bbo" f.hl_coin ∷ []

  unfoldable pub subscribe_lighter : MarketFeed W → List String
  subscribe_lighter f =
      append "{\"type\":\"subscribe\",\"channel\":\"ticker/"
        (append (to_string f.lighter_market_id) "\"}")
      ∷ []

  unfoldable pub on_hl_disconnect : MarketFeed W → Handled W
  on_hl_disconnect f = record {
    feed = record f { hl_subscribed = false; hl_trades_subscribed = false };
    sends = subscribe_hl f;
    updates = 0;
    trades = [];
  }

  unfoldable pub on_lighter_disconnect : MarketFeed W → Handled W
  on_lighter_disconnect f = record {
    feed = record f { lighter_subscribed = false };
    sends = [];
    updates = 0;
    trades = [];
  }

  -- A response to a subscription sets the flags of the channels that it names.
  unfoldable pub note_subscription : MarketFeed W → String → MarketFeed W
  note_subscription f msg =
      if contains msg "subscriptionResponse"
      then record f {
        hl_subscribed = f.hl_subscribed || contains msg "\"bbo\"";
        hl_trades_subscribed =
            f.hl_trades_subscribed || (contains msg "\"trades\"" && f.has_on_trade);
      }
      else f

module _ {W : Type 0} ⦃d : Double W⦄ ⦃c : Conversions W⦄ where
  unfoldable pub on_hl_message : MarketFeed W → String → (now_ns : ℕ) → Handled W
  on_hl_message f msg now_ns =
      let noted = note_subscription f msg in
      let trades =
        if f.has_on_trade && noted.hl_trades_subscribed
        then parse_hl_trades msg f.hl_coin now_ns
        else [] in
      elim (if contains msg "\"bbo\"" then parse_hl_bbo {W = W} msg else none) [
        | none ↦ record { feed = noted; sends = []; updates = 0; trades = trades }
        | some (bid, ask) ↦ record {
          feed = record noted { hl_bbo = store bid ask now_ns };
          sends = [];
          updates = 1;
          trades = trades;
        }
      ]

  unfoldable pub on_lighter_message : MarketFeed W → String → (now_ns : ℕ) → Handled W
  on_lighter_message f msg now_ns =
      if contains msg "\"connected\"" && not f.lighter_subscribed
      then record { feed = f; sends = subscribe_lighter f; updates = 0; trades = [] }
      else if contains msg "\"ping\""
      then record { feed = f; sends = "{\"type\":\"pong\"}" ∷ []; updates = 0; trades = [] }
      else if contains msg "\"ticker\""
      then elim (parse_lighter_ticker {W = W} msg) [
        | none ↦ record {
          feed = record f { lighter_subscribed = true };
          sends = [];
          updates = 0;
          trades = [];
        }
        | some (bid, ask) ↦ record {
          feed = record f { lighter_subscribed = true; lighter_bbo = store bid ask now_ns };
          sends = [];
          updates = 1;
          trades = [];
        }
      ]
      else record { feed = f; sends = []; updates = 0; trades = [] }

module _ {W : Type 0} ⦃d : Double W⦄ where
  -- Each load reads the clock itself.
  unfoldable pub snapshot : MarketFeed W → (hl_now_ns lighter_now_ns : ℕ) → SpreadSnapshot W
  snapshot f hl_now_ns lighter_now_ns =
      let hl = load f.hl_bbo hl_now_ns in
      let lighter = load f.lighter_bbo lighter_now_ns in
      let avg_mid = (mid hl +ᵈ mid lighter) /ᵈ lit 2 0 in
      record {
        lighter = lighter;
        hl = hl;
        cross_spread_bps =
            if lit 0 0 <ᵈ avg_mid
            then ((mid lighter -ᵈ mid hl) /ᵈ avg_mid) *ᵈ lit 10000 0
            else lit 0 0;
      }
