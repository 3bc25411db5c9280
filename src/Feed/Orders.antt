-- ===== src/Feed/Orders.antt =====
-- The orders that `LighterAccountFeed` keeps, over any sequence of messages and losses of the connection.
use Prim.Native.String.{String}
use text.Mathlib.Text.{◌==◌ as str_eq}
use hl_maker_lighter_arb_cpp.Common.{
  ◌≡◌, sym, ap, ◌∙◌, inl, inr, true, ◌||◌, Option, none, some, List, [], ◌∷◌, Option-cases,
  Bool-cases, arith,
}
use hl_maker_lighter_arb_cpp.Common.Int.{ℤ, pos, negsuc, ◌<ℤ◌}
use hl_maker_lighter_arb_cpp.Double.{Double}
use hl_maker_lighter_arb_cpp.Exchange.{LighterRestingOrder}
use hl_maker_lighter_arb_cpp.Scan.{contains}
use hl_maker_lighter_arb_cpp.Convert.{Conversions}
use hl_maker_lighter_arb_cpp.Feed.LighterParse.{
  LighterOrderUpdate, eq_ℤ, parse_lighter_order_updates, parse_lighter_account_trades,
}
use hl_maker_lighter_arb_cpp.Feed.Account.{
  LighterAccountFeed, on_account_message, on_account_disconnect, note_channels, store_order,
  store_orders, put_order, wait_for_order_resting, resting,
}

eq_ℤ→eq : (a b : ℤ) → eq_ℤ a b ≡ true → a ≡ b
eq_ℤ→eq (pos n) (pos m) h = ap pos (ground arith)
eq_ℤ→eq (pos n) (negsuc m) h = ground arith
eq_ℤ→eq (negsuc n) (pos m) h = ground arith
eq_ℤ→eq (negsuc n) (negsuc m) h = ap negsuc (ground arith)

-- A message, or the loss of the connection.
pub data Event : Type 0 where
  message : String → Event
  lost : Event

module _ {W : Type 0} where
  -- Every order stands under its own client index.
  abbrev pub Keyed : (ℤ → Option (LighterOrderUpdate W)) → Type 0
  Keyed m = (k : ℤ) (o : LighterOrderUpdate W) → m k ≡ some o → eq_ℤ o.client_order_index k ≡ true

  abbrev client_of : Option (LighterOrderUpdate W) → ℤ
  client_of none = pos 0
  client_of (some o) = o.client_order_index

  put_order-Keyed :
      (m : ℤ → Option (LighterOrderUpdate W)) (o : LighterOrderUpdate W)
      → Keyed m
      → Keyed (put_order m o.client_order_index o)
  unfolding put_order
  put_order-Keyed m o keyed k p found = elim (Bool-cases (eq_ℤ o.client_order_index k)) [
    | inl same ↦
        let it : some o ≡ some p = sym (rw same) ∙ found in
        ap (λ q. eq_ℤ (client_of q) k) (sym it) ∙ same
    | inr other ↦ keyed k p (rw other at found)
  ]

  store_orders-Keyed :
      (orders : List (LighterOrderUpdate W)) (f : LighterAccountFeed W)
      → Keyed f.orders_by_client
      → Keyed (store_orders orders f).orders_by_client
  unfolding store_orders store_order
  store_orders-Keyed [] f keyed = keyed
  store_orders-Keyed (o ∷ more) f keyed =
      store_orders-Keyed more (store_order f o) (put_order-Keyed f.orders_by_client o keyed)

module _ {W : Type 0} ⦃d : Double W⦄ ⦃c : Conversions W⦄ where
  unfoldable pub step : LighterAccountFeed W → Event → LighterAccountFeed W
  step f (message msg) = (on_account_message f msg).feed
  step f lost = (on_account_disconnect f).feed

  unfoldable pub steps : LighterAccountFeed W → List Event → LighterAccountFeed W
  steps f [] = f
  steps f (e ∷ es) = steps (step f e) es

  on_account_message-Keyed :
      (f : LighterAccountFeed W) (msg : String)
      → Keyed f.orders_by_client
      → Keyed (on_account_message f msg).feed.orders_by_client
  unfolding on_account_message note_channels
  on_account_message-Keyed f msg keyed = elim (Bool-cases (contains msg "\"connected\"")) [
    | inl greets ↦ rw (greets, on_account_message) keyed
    | inr no_greeting ↦ elim (Bool-cases (contains msg "\"ping\"")) [
      | inl pings ↦ rw (no_greeting, pings, on_account_message) keyed
      | inr no_ping ↦
          elim (Option-cases (parse_lighter_order_updates {W = W} msg f.config.market_index)) [
            | inl throws ↦ rw (no_greeting, no_ping, throws, on_account_message) keyed
            | inr (orders, read) ↦
                let stored = store_orders-Keyed orders (note_channels f msg) keyed in
                elim (Option-cases (
                  parse_lighter_account_trades {W = W} msg f.config.account_index
                    f.config.market_index)) [
                      | inl throws ↦
                          rw (no_greeting, no_ping, read, throws, on_account_message) stored
                      | inr (fills, traded) ↦
                          rw (no_greeting, no_ping, read, traded, on_account_message) stored
                    ]
          ]
    ]
  ]

  -- Whatever Lighter sends and however often the connection is lost, if the wait for a client index ends
  -- with an order, then the feed keeps an update under this index which is of this client index and says
  -- that the order rests (its status is open or in-progress); the order that is returned has the indices
  -- of that update, and its exchange index is above 0.
  pub waited_order_is_own :
      (f : LighterAccountFeed W) (es : List Event) (client_order_index : ℤ)
      {r : LighterRestingOrder}
      → Keyed f.orders_by_client
      → wait_for_order_resting (steps f es) client_order_index ≡ some r
      → (o : LighterOrderUpdate W) × ((steps f es).orders_by_client client_order_index ≡ some o)
        × (o.client_order_index ≡ client_order_index)
        × (str_eq o.status "open" || str_eq o.status "in-progress" ≡ true)
        × (o.order_index ≡ r.order_index)
        × (r.client_order_index ≡ client_order_index)
        × (pos 0 <ℤ r.order_index)
        × (r.resting ≡ true)
  unfolding steps step wait_for_order_resting on_account_disconnect resting
  waited_order_is_own f [] k keyed waited = elim (Option-cases (f.orders_by_client k)) [
    | inl absent ↦ absurd (ground arith)
    | inr (o, found) ↦
        let own = eq_ℤ→eq o.client_order_index k (keyed k o found) in
        (o, found, own, ground arith, ground arith, ground arith, ground arith, ground arith)
  ]
  waited_order_is_own f (message msg ∷ es) k keyed waited =
      waited_order_is_own (on_account_message f msg).feed es k
        (on_account_message-Keyed f msg keyed) waited
  waited_order_is_own f (lost ∷ es) k keyed waited =
      waited_order_is_own (on_account_disconnect f).feed es k keyed waited
