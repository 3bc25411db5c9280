-- ===== src/NativeLighter/Confirmed.antt =====
-- What an answer of the client says about the order.
use Prim.Native.String.{String, len}
use hl_maker_lighter_arb_cpp.Common.{
  ℕ, ◌≡◌, inl, inr, true, false, Option, none, some, [], ◌∷◌, length, ◌==◌, Option-cases, arith,
}
use hl_maker_lighter_arb_cpp.Common.Int.{ℤ, pos, ◌<ℤ◌}
use hl_maker_lighter_arb_cpp.Double.{Double}
use hl_maker_lighter_arb_cpp.Types.{LighterPositionSnapshot}
use hl_maker_lighter_arb_cpp.Exchange.{
  LighterRestingOrder, LighterLimitOrderRequest, LighterLimitOrderAck, LighterIocRequest,
  LighterIocAck,
}
use hl_maker_lighter_arb_cpp.Scan.{contains, regex_search, quoted_group}
use hl_maker_lighter_arb_cpp.Convert.{Conversions}
use hl_maker_lighter_arb_cpp.NativeLighter.Client.{
  LighterClient, World, Call, tx_response_ok, ensure_client, next_nonce, query_position_snapshot,
}
use hl_maker_lighter_arb_cpp.NativeLighter.Limit.{with_nonce, create_order, place_limit_order}
use hl_maker_lighter_arb_cpp.NativeLighter.Moved.{MovedBy}
use hl_maker_lighter_arb_cpp.NativeLighter.Ioc.{
  confirmed_tx_hash, ioc_order, confirm_fill, send_ioc, place_ioc_order,
}

module _ {W : Type 0} ⦃d : Double W⦄ ⦃c : Conversions W⦄ where
  -- A call that answers has drawn a nonce and gone on with it.
  pub with_nonce_answers :
      {A : Type 0} (t : LighterClient W) (w : World W) (go : LighterClient W → ℕ → Call W A) {a : A}
      → (with_nonce t w go).answer ≡ some a
      → (ready : LighterClient W) × (t' : LighterClient W) × (n : ℕ) × (ensure_client t w
          ≡ some ready)
        × (next_nonce ready w ≡ some (t', n))
        × (with_nonce t w go ≡ go t' n)
  unfolding with_nonce
  with_nonce_answers t w go h = elim (Option-cases (ensure_client t w)) [
    | inl broken ↦ ground arith
    | inr (ready, made) ↦ elim (Option-cases (next_nonce ready w)) [
      | inl lost ↦ ground arith
      | inr ((t', n), drawn) ↦ (ready, t', n, made, drawn, rw (made, drawn, with_nonce))
    ]
  ]

  -- The order of this client index that the account feed shows as resting, under the index above 0 that the
  -- answer reports.
  abbrev pub Shown : World W → LighterLimitOrderAck → Type 0
  Shown w ack =
      (wait : ℤ → ℤ → Option LighterRestingOrder) × (o : LighterRestingOrder) × (w.order_waiter
        ≡ some wait)
      × (wait ack.client_order_index (pos 3000) ≡ some o)
      × (o.resting ≡ true)
      × (o.order_index ≡ ack.order_index)

  -- What went out, and what became of it.
  abbrev pub AcceptedOrder :
      LighterClient W → World W → LighterLimitOrderRequest W → LighterLimitOrderAck → Type 0
  AcceptedOrder t w request ack =
      (ready : LighterClient W) × (t' : LighterClient W) × (n : ℕ) × (ensure_client t w
        ≡ some ready)
      × (next_nonce ready w ≡ some (t', n))
      × (let tx = w.sign_create_order (create_order t' w request n) in
          (0 == len tx.err ≡ true)
          × ((place_limit_order t w request).sent ≡ (tx.tx_type, tx.tx_info) ∷ [])
          × (tx_response_ok (w.send_signed_tx tx.tx_type tx.tx_info) ≡ true))
      × Shown w ack
      × (pos 0 <ℤ ack.order_index)
      × (ack.resting_confirmed ≡ true)
      × (ack.client_order_index ≡ pos w.now_ms)

  -- What went out for a taker order, and what its answer rests on.
  abbrev pub Filled : LighterClient W → World W → LighterIocRequest W → LighterIocAck W → Type 0
  Filled t w request ack =
      (ready : LighterClient W) × (t' : LighterClient W) × (n : ℕ)
      × (before : LighterPositionSnapshot W) × (ensure_client t w ≡ some ready)
      × (query_position_snapshot ready.config w.account_before ≡ some before)
      × (next_nonce ready w ≡ some (t', n))
      × (let tx = w.sign_create_order (ioc_order t' w request n) in
          (0 == len tx.err ≡ true)
          × ((place_ioc_order t w request).sent ≡ (tx.tx_type, tx.tx_info) ∷ [])
          × (tx_response_ok (w.send_signed_tx tx.tx_type tx.tx_info) ≡ true))
      × (ack.ok ≡ true)
      × MovedBy t' w before ack

  pub ioc_goes_out :
      (t ready t' : LighterClient W) (w : World W) (request : LighterIocRequest W)
      (before : LighterPositionSnapshot W) (n : ℕ)
      → request.dry_run ≡ false
      → ensure_client t w ≡ some ready
      → query_position_snapshot ready.config w.account_before ≡ some before
      → next_nonce ready w ≡ some (t', n)
      → place_ioc_order t w request ≡ send_ioc w request before t' n
  unfolding place_ioc_order
  ioc_goes_out t ready t' w request before n live made asked drawn =
      simp (live, made, asked, drawn, place_ioc_order)

  -- An exception behind the send: where the venue's answer has the word tx_hash but not as a field with a
  -- text, the transaction is out and the call throws.
  throws_after_send :
      (t ready t' : LighterClient W) (w : World W) (request : LighterIocRequest W)
      (before : LighterPositionSnapshot W) (n : ℕ)
      → request.dry_run ≡ false
      → ensure_client t w ≡ some ready
      → query_position_snapshot ready.config w.account_before ≡ some before
      → next_nonce ready w ≡ some (t', n)
      → let tx = w.sign_create_order (ioc_order t' w request n) in
        let body = w.send_signed_tx tx.tx_type tx.tx_info in
        (0 == len tx.err) ≡ true
        → tx_response_ok body ≡ true
        → contains body "tx_hash" ≡ true
        → regex_search body "\"tx_hash\":\"" quoted_group ≡ none
        → let call = place_ioc_order t w request in (call.answer ≡ none) × (length call.sent ≡ 1)
  unfolding send_ioc confirm_fill confirmed_tx_hash
  throws_after_send t ready t' w request before n live made asked drawn clean ok some_hash
        no_field =
      let shape = ioc_goes_out t ready t' w request before n live made asked drawn in
      rw shape (ground arith)
