-- ===== src/NativeLighter/Ioc.antt =====
-- `place_ioc_order`: a taker order, of which the fill is read off the account's position.
use Prim.Native.String.{String, len}
use hl_maker_lighter_arb_cpp.Common.{
  ℕ, ◌+◌, ◌-◌, Bool, true, false, not, Option, none, some, ltb, ◌==◌, if◌then◌else◌,
}
use hl_maker_lighter_arb_cpp.Common.Int.{pos}
use hl_maker_lighter_arb_cpp.Double.{Double, lit, ◌+ᵈ◌, ◌-ᵈ◌, ◌*ᵈ◌, ◌/ᵈ◌, ◌<ᵈ◌}
use hl_maker_lighter_arb_cpp.Types.{LighterPositionSnapshot}
use hl_maker_lighter_arb_cpp.Exchange.{LighterIocRequest, LighterIocAck}
use hl_maker_lighter_arb_cpp.Scan.{◌>>=◌, contains, regex_search, quoted_group, digits_group}
use hl_maker_lighter_arb_cpp.Convert.{Conversions, stoull}
use hl_maker_lighter_arb_cpp.NativeLighter.Client.{
  LighterClient, CreateOrder, SignedTxResponse, World, Call, tx_response_ok, scaled_size,
  scaled_price, ensure_client, next_nonce, query_position_snapshot,
}
use hl_maker_lighter_arb_cpp.NativeLighter.Limit.{done, throws, sent_then}

-- What is known of the fill: whether it is confirmed, its size and its price.
pub record Fill (W : Type 0) : Type 0 where
  pub fill_confirmed : Bool
  pub confirmed_size : W
  pub fill_price : W

module _ {W : Type 0} ⦃d : Double W⦄ where
  unfoldable pub fill_from :
      LighterIocRequest W → (before after : LighterPositionSnapshot W) → Fill W
  fill_from request before after =
      let delta = d.fabs (after.size -ᵈ before.size) in
      let value_before = d.fabs before.size *ᵈ before.avg_entry_price in
      let value_after = d.fabs after.size *ᵈ after.avg_entry_price in
      record {
        fill_confirmed = lit 1 3 <ᵈ delta;
        confirmed_size = delta;
        fill_price =
            if (d.fabs before.size +ᵈ lit 1 3) <ᵈ d.fabs after.size
            then if lit 1 4 <ᵈ delta then d.fabs (value_after -ᵈ value_before) /ᵈ delta else lit 0 0
            else if lit 0 0 <ᵈ request.signal_price
            then request.signal_price
            else before.avg_entry_price;
      }

-- The time in milliseconds that the fill is waited for; it throws where the prediction does not fit 64
-- bits. The sum `wait_ms + 1000` wraps only beyond what a clock shows.
unfoldable pub wait_ms : String → ℕ → Option ℕ
wait_ms response_body now_ms =
    elim (regex_search response_body "\"predicted_execution_time_ms\":" digits_group) [
      | none ↦ some 500
      | some digits ↦
          stoull digits
          >>= (λ predicted. some (if ltb now_ms predicted then predicted - now_ms + 200 else 500))
    ]

unfoldable pub confirmed_tx_hash : String → SignedTxResponse → Option String
confirmed_tx_hash response_body tx =
    if contains response_body "tx_hash"
    then regex_search response_body "\"tx_hash\":\"" quoted_group
    else some tx.tx_hash

abbrev pub ioc_refused : {W : Type 0} ⦃d : Double W⦄ → String → String → LighterIocAck W
ioc_refused message tx_hash = record {
  ok = false;
  fill_confirmed = false;
  message = message;
  tx_hash = tx_hash;
  confirmed_size = lit 0 0;
  fill_price = lit 0 0;
  fee = lit 0 0;
}

module _ {W : Type 0} ⦃d : Double W⦄ ⦃c : Conversions W⦄ where
  -- The position that the waiter reports, else the one that is asked for if it has moved.
  unfoldable pub position_after :
      LighterClient W
      → World W
      → LighterPositionSnapshot W
      → ℕ
      → Option (Option (LighterPositionSnapshot W))
  position_after t w before ms =
      let waited : Option (LighterPositionSnapshot W) = elim w.position_waiter [
        | none ↦ none
        | some wait ↦ wait before.size (pos (if ltb (ms + 1000) 3000 then ms + 1000 else 3000))
      ] in
      elim waited [
        | some after ↦ some (some after)
        | none ↦ query_position_snapshot t.config w.account_after >>= (λ after.
            some (if lit 1 3 <ᵈ d.fabs (after.size -ᵈ before.size) then some after else none))
      ]

  -- The answer once the order is sent.
  unfoldable pub confirm_fill :
      LighterClient W
      → World W
      → LighterIocRequest W
      → LighterPositionSnapshot W
      → SignedTxResponse
      → String
      → Option (LighterIocAck W)
  confirm_fill t w request before tx response_body =
      if not (tx_response_ok response_body)
      then some (ioc_refused response_body tx.tx_hash)
      else confirmed_tx_hash response_body tx >>= (λ tx_hash.
        wait_ms response_body w.after_ms >>= (λ ms. position_after t w before ms >>= (λ after_opt.
          let fill : Fill W = elim after_opt [
            | none ↦ record {
              fill_confirmed = false;
              confirmed_size = lit 0 0;
              fill_price = lit 0 0;
            }
            | some after ↦ fill_from request before after
          ] in
          some (record {
            ok = true;
            fill_confirmed = fill.fill_confirmed;
            message = response_body;
            tx_hash = tx_hash;
            confirmed_size = fill.confirmed_size;
            fill_price = fill.fill_price;
            fee = lit 0 0;
          }))))

  unfoldable pub ioc_order : LighterClient W → World W → LighterIocRequest W → ℕ → CreateOrder
  ioc_order t w request nonce = record {
    market_index = t.config.market_index;
    client_order_index = pos w.now_ms;
    base_amount = scaled_size t request.size;
    price = scaled_price t request.price;
    is_ask = request.is_ask;
    time_in_force = 0;
    nonce = nonce;
    api_key_index = t.config.api_key_index;
    account_index = t.config.account_index;
  }

  unfoldable pub send_ioc :
      World W
      → LighterIocRequest W
      → LighterPositionSnapshot W
      → LighterClient W
      → ℕ
      → Call W (LighterIocAck W)
  send_ioc w request before t nonce =
      let tx = w.sign_create_order (ioc_order t w request nonce) in
      if not (0 == len tx.err)
      then done t (ioc_refused tx.err "")
      else sent_then t tx
          (confirm_fill t w request before tx (w.send_signed_tx tx.tx_type tx.tx_info))

  -- The position is asked for before the nonce is drawn.
  unfoldable pub place_ioc_order :
      LighterClient W → World W → LighterIocRequest W → Call W (LighterIocAck W)
  place_ioc_order t w request =
      if request.dry_run
      then done t (record {
        ok = true;
        fill_confirmed = true;
        message = "dry-run";
        tx_hash = "dry_tx";
        confirmed_size = request.size;
        fill_price = request.price;
        fee = lit 0 0;
      })
      else elim (ensure_client t w) [
        | none ↦ throws t
        | some ready ↦ elim (query_position_snapshot ready.config w.account_before) [
          | none ↦ throws ready
          | some before ↦ elim (next_nonce ready w) [
            | none ↦ throws ready
            | some (t', nonce) ↦ send_ioc w request before t' nonce
          ]
        ]
      ]
