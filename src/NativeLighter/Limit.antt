-- ===== src/NativeLighter/Limit.antt =====
-- `place_limit_order` and `cancel_order`. A throw before anything is sent keeps the client as it was, but
-- for its set-up.
use Prim.Native.String.{String, len}
use hl_maker_lighter_arb_cpp.Common.{
  ℕ, Bool, true, false, not, ◌&&◌, Option, none, some, [], ◌∷◌, ◌==◌, if◌then◌else◌,
}
use hl_maker_lighter_arb_cpp.Common.Int.{ℤ, pos, leb_ℤ}
use hl_maker_lighter_arb_cpp.Double.{Double}
use hl_maker_lighter_arb_cpp.Exchange.{
  LighterLimitOrderRequest, LighterLimitOrderAck, LighterCancelAck, LighterRestingOrder,
}
use hl_maker_lighter_arb_cpp.Convert.{Conversions}
use hl_maker_lighter_arb_cpp.NativeLighter.Client.{
  LighterClient, CreateOrder, SignedTxResponse, World, Call, tx_response_ok, scaled_size,
  scaled_price, ensure_client, next_nonce,
}

abbrev pub resting_index : Option LighterRestingOrder → ℤ
resting_index none = pos 0
resting_index (some o) = o.order_index

-- `resting` with an index above 0.
abbrev pub is_confirmed : Option LighterRestingOrder → Bool
is_confirmed none = false
is_confirmed (some o) = o.resting && not (leb_ℤ o.order_index (pos 0))

abbrev refused : String → String → ℤ → ℤ → LighterLimitOrderAck
refused message tx_hash client_order_index order_index = record {
  ok = false;
  resting_confirmed = false;
  message = message;
  tx_hash = tx_hash;
  client_order_index = client_order_index;
  order_index = order_index;
}

module _ {W : Type 0} where
  abbrev pub done : {A : Type 0} → LighterClient W → A → Call W A
  done t a = record { client = t; sent = []; answer = some a }

  abbrev pub throws : {A : Type 0} → LighterClient W → Call W A
  throws t = record { client = t; sent = []; answer = none }

  -- What is done behind `sendTx`: the transaction has gone out.
  abbrev pub sent_then : {A : Type 0} → LighterClient W → SignedTxResponse → Option A → Call W A
  sent_then t tx answer = record {
    client = t;
    sent = (tx.tx_type, tx.tx_info) ∷ [];
    answer = answer;
  }

module _ {W : Type 0} where
  -- The answer once the order is sent.
  unfoldable pub confirm_order : World W → SignedTxResponse → ℤ → String → LighterLimitOrderAck
  confirm_order w tx client_order_index response_body =
      if not (tx_response_ok response_body)
      then refused response_body tx.tx_hash client_order_index (pos 0)
      else elim w.order_waiter [
        | none ↦
            refused
              "lighter maker order accepted by sendTx but no resting-order confirmer is configured"
              tx.tx_hash client_order_index (pos 0)
        | some wait ↦
            let confirmed = wait client_order_index (pos 3000) in
            if is_confirmed confirmed
            then record {
              ok = true;
              resting_confirmed = true;
              message = response_body;
              tx_hash = tx.tx_hash;
              client_order_index = client_order_index;
              order_index = resting_index confirmed;
            }
            else refused
                "lighter maker order was accepted by sendTx but did not reach confirmed resting state"
                tx.tx_hash client_order_index (resting_index confirmed)
      ]

  -- The answer once the cancel is sent.
  unfoldable pub confirm_cancel : World W → SignedTxResponse → ℤ → String → LighterCancelAck
  confirm_cancel w tx order_index response_body =
      if not (tx_response_ok response_body)
      then record {
        ok = false;
        message = response_body;
        tx_hash = tx.tx_hash;
        order_index = order_index;
      }
      else elim w.cancel_waiter [
        | none ↦ record {
          ok = false;
          message = "lighter cancel accepted by sendTx but no post-cancel confirmer is configured";
          tx_hash = tx.tx_hash;
          order_index = order_index;
        }
        | some wait ↦ record {
          ok = wait order_index (pos 3000);
          message = response_body;
          tx_hash = tx.tx_hash;
          order_index = order_index;
        }
      ]

module _ {W : Type 0} ⦃d : Double W⦄ ⦃c : Conversions W⦄ where
  -- The client made ready, and a nonce drawn.
  unfoldable pub with_nonce :
      {A : Type 0} → LighterClient W → World W → (LighterClient W → ℕ → Call W A) → Call W A
  with_nonce t w go = elim (ensure_client t w) [
    | none ↦ throws t
    | some ready ↦ elim (next_nonce ready w) [ none ↦ throws ready | some (t', n) ↦ go t' n ]
  ]

  unfoldable pub create_order :
      LighterClient W → World W → LighterLimitOrderRequest W → ℕ → CreateOrder
  create_order t w request nonce = record {
    market_index = t.config.market_index;
    client_order_index = pos w.now_ms;
    base_amount = scaled_size t request.size;
    price = scaled_price t request.price;
    is_ask = request.is_ask;
    time_in_force = if request.post_only then 2 else 1;
    nonce = nonce;
    api_key_index = t.config.api_key_index;
    account_index = t.config.account_index;
  }

  unfoldable pub send_order :
      World W → LighterLimitOrderRequest W → LighterClient W → ℕ → Call W LighterLimitOrderAck
  send_order w request t nonce =
      let tx = w.sign_create_order (create_order t w request nonce) in
      if not (0 == len tx.err)
      then done t (refused tx.err "" (pos w.now_ms) (pos 0))
      else sent_then t tx
          (some (confirm_order w tx (pos w.now_ms) (w.send_signed_tx tx.tx_type tx.tx_info)))

  unfoldable pub place_limit_order :
      LighterClient W → World W → LighterLimitOrderRequest W → Call W LighterLimitOrderAck
  place_limit_order t w request =
      if request.dry_run
      then done t (record {
        ok = true;
        resting_confirmed = true;
        message = "dry-run";
        tx_hash = "dry_tx";
        client_order_index = pos w.now_ms;
        order_index = pos w.after_ms;
      })
      else with_nonce t w (send_order w request)

  unfoldable pub send_order_cancel : World W → ℤ → LighterClient W → ℕ → Call W LighterCancelAck
  send_order_cancel w order_index t nonce =
      let tx = w.sign_cancel_order (record {
        market_index = t.config.market_index;
        order_index = order_index;
        nonce = nonce;
        api_key_index = t.config.api_key_index;
        account_index = t.config.account_index;
      }) in
      if not (0 == len tx.err)
      then done t (record { ok = false; message = tx.err; tx_hash = ""; order_index = order_index })
      else sent_then t tx
          (some (confirm_cancel w tx order_index (w.send_signed_tx tx.tx_type tx.tx_info)))

  unfoldable pub cancel_order : LighterClient W → World W → ℤ → Bool → Call W LighterCancelAck
  cancel_order t w order_index dry_run =
      if dry_run
      then done t
          (record { ok = true; message = "dry-run"; tx_hash = "dry_tx"; order_index = order_index })
      else if leb_ℤ order_index (pos 0)
      then done t (record {
        ok = false;
        message = "lighter cancel requires a confirmed exchange order_index";
        tx_hash = "";
        order_index = order_index;
      })
      else with_nonce t w (send_order_cancel w order_index)
