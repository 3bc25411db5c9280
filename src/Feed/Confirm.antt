-- ===== src/Feed/Confirm.antt =====
-- What the client of Lighter makes of the account's feeds: their waits are its waiters.
use Prim.Native.String.{String, len}
use hl_maker_lighter_arb_cpp.Common.{ℕ, ◌≡◌, refl, ap, ◌∙◌, true, false, some, ◌==◌, arith}
use hl_maker_lighter_arb_cpp.Double.{Double, lit, ◌-ᵈ◌, ◌<ᵈ◌}
use hl_maker_lighter_arb_cpp.Types.{LighterPositionSnapshot}
use hl_maker_lighter_arb_cpp.Exchange.{LighterIocRequest, LighterIocAck}
use hl_maker_lighter_arb_cpp.Convert.{Conversions}
use hl_maker_lighter_arb_cpp.NativeLighter.Client.{
  LighterClient, World, tx_response_ok, ensure_client, next_nonce, query_position_snapshot,
}
use hl_maker_lighter_arb_cpp.NativeLighter.Ioc.{
  ioc_order, wait_ms, confirmed_tx_hash, position_after, confirm_fill, fill_from, send_ioc,
  place_ioc_order,
}
use hl_maker_lighter_arb_cpp.NativeLighter.Confirmed.{ioc_goes_out}
use hl_maker_lighter_arb_cpp.Feed.Account.{LighterPositionFeed, wait_for_position_change}

module _ {W : Type 0} ⦃d : Double W⦄ ⦃c : Conversions W⦄ where
  -- An old report of the account feed confirms a fill: if a live order is signed and sent, the venue's answer
  -- counts as accepted and its tx_hash, where it has one, and its predicted time can be read, and the feed's
  -- latest position differs by more than 0.001 from the one that was asked for before the order, then the
  -- call answers that the order is filled, by that difference, whatever the account holds after the order.
  pub old_position_confirms :
      (t ready t' : LighterClient W) (w : World W) (request : LighterIocRequest W)
      (before old : LighterPositionSnapshot W) (feed : LighterPositionFeed W) (n ms : ℕ)
      (hash : String)
      → request.dry_run ≡ false
      → ensure_client t w ≡ some ready
      → query_position_snapshot ready.config w.account_before ≡ some before
      → next_nonce ready w ≡ some (t', n)
      → w.position_waiter ≡ some (λ baseline _. wait_for_position_change feed baseline)
      → feed.latest ≡ some old
      → (lit 1 3 <ᵈ d.fabs (old.size -ᵈ before.size)) ≡ true
      → let tx = w.sign_create_order (ioc_order t' w request n) in
        let body = w.send_signed_tx tx.tx_type tx.tx_info in
        (0 == len tx.err) ≡ true
        → tx_response_ok body ≡ true
        → confirmed_tx_hash body tx ≡ some hash
        → wait_ms body w.after_ms ≡ some ms
        → (ack : LighterIocAck W) × ((place_ioc_order t w request).answer ≡ some ack)
          × (ack.fill_confirmed ≡ true)
          × (ack.confirmed_size ≡ d.fabs (old.size -ᵈ before.size))
  unfolding send_ioc confirm_fill position_after wait_for_position_change fill_from
  old_position_confirms t ready t' w request before old feed n ms hash live made asked drawn waiter
        latest far clean ok hashed timed =
      let tx = w.sign_create_order (ioc_order t' w request n) in
      let body = w.send_signed_tx tx.tx_type tx.tx_info in
      let shape = ioc_goes_out t ready t' w request before n live made asked drawn in
      let fill = fill_from request before old in
      let reported : position_after t' w before ms ≡ some (some old) =
        rw (waiter, position_after) (rw (latest, wait_for_position_change) (rw far refl)) in
      let ack : LighterIocAck W = record {
        ok = true;
        fill_confirmed = fill.fill_confirmed;
        message = body;
        tx_hash = hash;
        confirmed_size = fill.confirmed_size;
        fill_price = fill.fill_price;
        fee = lit 0 0;
      } in
      let answer : confirm_fill t' w request before tx body ≡ some ack =
        rw (ok, hashed, timed, reported, confirm_fill) in
      let went : (send_ioc w request before t' n).answer ≡ some ack = ground arith in
      (ack, ap (λ call. call.answer) shape ∙ went, far, refl)
