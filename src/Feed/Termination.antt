-- ===== src/Feed/Termination.antt =====
-- The parsers' loops end: every round moves on in the message, so as many rounds as it has bytes, and one
-- more, are enough.
use Prim.Native.String.{String, len}
use hl_maker_lighter_arb_cpp.Common.{
  ℕ, suc, ◌+◌, ◌≤◌, ◌<◌, ◌≡◌, sym, ◌∙◌, ltb, Option, some, Option-cases, inl, inr, false, arith,
}
use hl_maker_lighter_arb_cpp.Common.Int.{ℤ}
use hl_maker_lighter_arb_cpp.Double.{Double}
use hl_maker_lighter_arb_cpp.Types.{TradeEvent}
use hl_maker_lighter_arb_cpp.Scan.{
  ◌>>=◌, find_from, substr, regex_search, digits_group, quoted_group,
}
use hl_maker_lighter_arb_cpp.Scan.Bounds.{find_from-le}
use hl_maker_lighter_arb_cpp.Convert.{Conversions}
use hl_maker_lighter_arb_cpp.Feed.Loop.{collect, MovesOn, collect_enough}
use hl_maker_lighter_arb_cpp.Feed.HlParse.{
  ParsedFill, quoted_after, number_at, next_fill, next_trade,
}
use hl_maker_lighter_arb_cpp.Feed.LighterParse.{
  LighterOrderUpdate, LighterTradeFill, market_key, read_order, next_order, next_account_trade,
}

quoted_after-le :
    (msg : String) (p : ℕ) {text : String} {stop : ℕ}
    → quoted_after msg p ≡ some (text, stop)
    → (p < stop) × (suc stop ≤ len msg)
unfolding quoted_after
quoted_after-le msg p h = elim (Option-cases (find_from msg "\"" p)) [
  | inl missing ↦ ground arith
  | inr (quote, opened) ↦ elim (Option-cases (find_from msg "\"" (quote + 1))) [
    | inl missing ↦ ground arith
    | inr (stop', closed) ↦
        let opens = find_from-le msg "\"" p opened in
        let closes = find_from-le msg "\"" (quote + 1) closed in ground arith
  ]
]

module _ {W : Type 0} ⦃d : Double W⦄ ⦃c : Conversions W⦄ where
  number_at-le :
      (msg key : String) (p : ℕ) {n : W} {stop : ℕ}
      → number_at msg key p ≡ some (n, stop)
      → (p < stop) × (suc stop ≤ len msg)
  unfolding number_at
  number_at-le msg key p h = elim (Option-cases (find_from msg key p)) [
    | inl missing ↦ ground arith
    | inr (key_pos, found) ↦ elim (Option-cases (quoted_after msg (key_pos + len key))) [
      | inl missing ↦ ground arith
      | inr ((text, stop'), quoted) ↦
          let key_at = find_from-le msg key p found in
          let within = quoted_after-le msg (key_pos + len key) quoted in ground arith
    ]
  ]

  next_fill-MovesOn : (msg : String) → MovesOn {A = ParsedFill W} (next_fill msg) (len msg)
  unfolding next_fill
  next_fill-MovesOn msg p q fill h = elim (Option-cases (find_from msg "\"coin\"" p)) [
    | inl missing ↦ ground arith
    | inr (coin_pos, found) ↦ elim (Option-cases (quoted_after msg (coin_pos + 6))) [
      | inl missing ↦ ground arith
      | inr ((coin, coin_end), quoted) ↦
          let coin_at = find_from-le msg "\"coin\"" p found in
          let coin_to = quoted_after-le msg (coin_pos + 6) quoted in
          elim (Option-cases (number_at {W = W} msg "\"px\"" coin_end)) [
            | inl missing ↦ ground arith
            | inr ((price, price_end), priced) ↦
                elim (Option-cases (number_at {W = W} msg "\"sz\"" price_end)) [
                  | inl missing ↦ ground arith
                  | inr ((size, size_end), sized) ↦
                      let price_to = number_at-le msg "\"px\"" coin_end priced in
                      let size_to = number_at-le msg "\"sz\"" price_end sized in ground arith
                ]
          ]
    ]
  ]

  next_trade-MovesOn :
      (msg coin : String) (now_ns : ℕ)
      → MovesOn {A = TradeEvent W} (next_trade msg coin now_ns) (len msg)
  unfolding next_trade
  next_trade-MovesOn msg coin now_ns p q trade h =
      elim (Option-cases (number_at {W = W} msg "\"px\"" p)) [
        | inl missing ↦ ground arith
        | inr ((price, price_end), priced) ↦
            elim (Option-cases (number_at {W = W} msg "\"sz\"" price_end)) [
              | inl missing ↦ ground arith
              | inr ((size, size_end), sized) ↦
                  let price_to = number_at-le msg "\"px\"" p priced in
                  let size_to = number_at-le msg "\"sz\"" price_end sized in ground arith
            ]
      ]

  next_account_trade-MovesOn :
      (msg : String) (account_index : ℤ)
      → MovesOn {A = Option (Option (LighterTradeFill W))}
          (next_account_trade msg account_index)
          (len msg)
  unfolding next_account_trade
  next_account_trade-MovesOn msg account_index p q trade h =
      elim (Option-cases (find_from msg "\"tx_hash\"" p)) [
        | inl missing ↦ ground arith
        | inr (tx_pos, found) ↦
            let tx_at = find_from-le msg "\"tx_hash\"" p found in
            elim (Option-cases
              (regex_search (substr msg tx_pos 1024) "\"tx_hash\":\"" quoted_group)) [
                | inl missing ↦ ground arith
                | inr (g, captured) ↦ ground arith
              ]
      ]

  -- The test of `next_order` for a further list of the market never ends the loop: it looks for the list
  -- behind the order and asks whether that is before the order.
  market_end_ignored :
      (msg : String) (market_index : ℤ) (p : ℕ)
      → next_order {W = W} msg market_index p ≡ (
          find_from msg "\"order_index\"" p >>= (λ idx_pos.
            let section = substr msg idx_pos 1024 in
            regex_search section "\"order_index\":" digits_group
            >>= (λ _. some (read_order section, idx_pos + 1))))
  unfolding next_order
  market_end_ignored msg market_index p = elim (Option-cases (find_from msg "\"order_index\"" p)) [
    | inl missing ↦ rw (missing, next_order)
    | inr (idx_pos, found) ↦
        elim (Option-cases (find_from msg (market_key market_index "[") (idx_pos + 1))) [
          | inl missing ↦ rw (found, missing, next_order)
          | inr (next_market, later) ↦
              let behind = find_from-le msg (market_key market_index "[") (idx_pos + 1) later in
              let after : ltb next_market idx_pos ≡ false = ground arith in
              rw (found, later, after, next_order)
        ]
  ]

  next_order-MovesOn :
      (msg : String) (market_index : ℤ)
      → MovesOn {A = Option (LighterOrderUpdate W)} (next_order msg market_index) (len msg)
  next_order-MovesOn msg market_index p q order h =
      let h' = sym (market_end_ignored msg market_index p) ∙ h in
      elim (Option-cases (find_from msg "\"order_index\"" p)) [
        | inl missing ↦ ground arith
        | inr (idx_pos, found) ↦
            let at_ = find_from-le msg "\"order_index\"" p found in
            elim (Option-cases
              (regex_search (substr msg idx_pos 1024) "\"order_index\":" digits_group)) [
                | inl missing ↦ ground arith
                | inr (g, captured) ↦ ground arith
              ]
      ]

  -- The loops over the fills and trades of Hyperliquid and over the orders and trades of Lighter end: from
  -- any position, one round more than the message has bytes finds everything that any number of further
  -- rounds would.
  pub loops_end :
      (msg coin : String) (account_index market_index : ℤ) (now_ns p more : ℕ)
      → let rounds = suc (len msg) in
        (collect (next_fill {W = W} msg) (rounds + more) p ≡ collect (next_fill msg) rounds p)
        × (collect (next_trade {W = W} msg coin now_ns) (rounds + more) p
            ≡ collect (next_trade msg coin now_ns) rounds p)
        × (collect (next_order {W = W} msg market_index) (rounds + more) p
            ≡ collect (next_order msg market_index) rounds p)
        × (collect (next_account_trade {W = W} msg account_index) (rounds + more) p
            ≡ collect (next_account_trade msg account_index) rounds p)
  loops_end msg coin account_index market_index now_ns p more =
      let rounds = suc (len msg) in
      let enough : len msg < p + (rounds + more) = omega arith in
      let enough' : len msg < p + rounds = omega arith in
      (
        collect_enough _ (len msg) (rounds + more) rounds p (next_fill-MovesOn msg) enough enough',
        collect_enough _ (len msg) (rounds + more) rounds p (next_trade-MovesOn msg coin now_ns)
            enough enough',
        collect_enough _ (len msg) (rounds + more) rounds p (next_order-MovesOn msg market_index)
            enough enough',
        collect_enough _ (len msg) (rounds + more) rounds p
            (next_account_trade-MovesOn msg account_index) enough enough',
      )
