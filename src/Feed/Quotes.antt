-- ===== src/Feed/Quotes.antt =====
-- The quotes that `MarketFeed` keeps, over any sequence of messages and losses of the connections.
use Prim.Native.String.{String}
use hl_maker_lighter_arb_cpp.Common.{
  ℕ, ◌≡◌, ◌⊎◌, inl, inr, true, some, List, [], ◌∷◌, Option-cases, arith,
}
use hl_maker_lighter_arb_cpp.Double.{Double, lit, ◌<ᵈ◌}
use hl_maker_lighter_arb_cpp.Convert.{Conversions}
use hl_maker_lighter_arb_cpp.Feed.HlParse.{parse_hl_bbo}
use hl_maker_lighter_arb_cpp.Feed.LighterParse.{parse_lighter_ticker}
use hl_maker_lighter_arb_cpp.Feed.Market.{
  AtomicBbo, MarketFeed, store, note_subscription, on_hl_message, on_hl_disconnect,
  on_lighter_message, on_lighter_disconnect,
}

-- A message of a venue at a time, or the loss of its connection.
pub data Event : Type 0 where
  hl_message lighter_message : String → ℕ → Event
  hl_lost lighter_lost : Event

module _ {W : Type 0} ⦃d : Double W⦄ ⦃c : Conversions W⦄ where
  unfoldable pub step : MarketFeed W → Event → MarketFeed W
  step f (hl_message msg now_ns) = (on_hl_message f msg now_ns).feed
  step f (lighter_message msg now_ns) = (on_lighter_message f msg now_ns).feed
  step f hl_lost = (on_hl_disconnect f).feed
  step f lighter_lost = (on_lighter_disconnect f).feed

  unfoldable pub steps : MarketFeed W → List Event → MarketFeed W
  steps f [] = f
  steps f (e ∷ es) = steps (step f e) es

  -- Never stored, or both prices above 0.
  abbrev pub Positive : AtomicBbo W → Type 0
  Positive b = (b.last_update_ns ≡ 0) ⊎ (((lit 0 0 <ᵈ b.bid) ≡ true) × ((lit 0 0 <ᵈ b.ask) ≡ true))

  abbrev pub Inv : MarketFeed W → Type 0
  Inv f = Positive f.hl_bbo × Positive f.lighter_bbo

  parse_hl_bbo-Positive :
      (msg : String) {bid ask : W}
      → parse_hl_bbo msg ≡ some (bid, ask)
      → ((lit 0 0 <ᵈ bid) ≡ true) × ((lit 0 0 <ᵈ ask) ≡ true)
  unfolding parse_hl_bbo
  parse_hl_bbo-Positive msg h = ground arith

  parse_lighter_ticker-Positive :
      (msg : String) {bid ask : W}
      → parse_lighter_ticker msg ≡ some (bid, ask)
      → ((lit 0 0 <ᵈ bid) ≡ true) × ((lit 0 0 <ᵈ ask) ≡ true)
  unfolding parse_lighter_ticker
  parse_lighter_ticker-Positive msg h = ground arith

  on_hl_message-Positive :
      (f : MarketFeed W) (msg : String) (now_ns : ℕ) → Inv f → Inv (on_hl_message f msg now_ns).feed
  unfolding on_hl_message note_subscription store
  on_hl_message-Positive f msg now_ns (hl, lighter) =
      elim (Option-cases (parse_hl_bbo {W = W} msg)) [
        | inl unread ↦ ground arith
        | inr ((bid, ask), read) ↦ let positive = parse_hl_bbo-Positive msg read in ground arith
      ]

  on_lighter_message-Positive :
      (f : MarketFeed W) (msg : String) (now_ns : ℕ)
      → Inv f
      → Inv (on_lighter_message f msg now_ns).feed
  unfolding on_lighter_message store
  on_lighter_message-Positive f msg now_ns (hl, lighter) =
      elim (Option-cases (parse_lighter_ticker {W = W} msg)) [
        | inl unread ↦ ground arith
        | inr ((bid, ask), read) ↦
            let positive = parse_lighter_ticker-Positive msg read in ground arith
      ]

  -- Whatever the venues send and however often the connections are lost, each quote that the feed keeps
  -- has never been stored or has a bid and an ask above 0.
  quotes-Inv : (f : MarketFeed W) (es : List Event) → Inv f → Inv (steps f es)
  unfolding steps step on_hl_disconnect on_lighter_disconnect
  quotes-Inv f [] inv = inv
  quotes-Inv f (hl_message msg now_ns ∷ es) inv =
      quotes-Inv (on_hl_message f msg now_ns).feed es (on_hl_message-Positive f msg now_ns inv)
  quotes-Inv f (lighter_message msg now_ns ∷ es) inv =
      quotes-Inv (on_lighter_message f msg now_ns).feed es
        (on_lighter_message-Positive f msg now_ns inv)
  quotes-Inv f (hl_lost ∷ es) inv = quotes-Inv (on_hl_disconnect f).feed es inv
  quotes-Inv f (lighter_lost ∷ es) inv = quotes-Inv (on_lighter_disconnect f).feed es inv
