-- ===== src/NativeLighter/Cancelled.antt =====
-- What an answer of `cancel_order` says about the order.
use hl_maker_lighter_arb_cpp.Common.{
  ℕ, ◌≡◌, inl, inr, Bool, true, false, some, length, Option-cases, Bool-cases, arith,
}
use hl_maker_lighter_arb_cpp.Common.Int.{ℤ, pos, ◌<ℤ◌, leb_ℤ}
use hl_maker_lighter_arb_cpp.Double.{Double}
use hl_maker_lighter_arb_cpp.Exchange.{LighterCancelAck}
use hl_maker_lighter_arb_cpp.Convert.{Conversions}
use hl_maker_lighter_arb_cpp.NativeLighter.Client.{LighterClient, World}
use hl_maker_lighter_arb_cpp.NativeLighter.Limit.{
  with_nonce, confirm_cancel, send_order_cancel, cancel_order,
}
use hl_maker_lighter_arb_cpp.NativeLighter.Confirmed.{with_nonce_answers}

module _ {W : Type 0} ⦃d : Double W⦄ ⦃c : Conversions W⦄ where
  send_order_cancel_ok :
      (w : World W) (order_index : ℤ) (t : LighterClient W) (n : ℕ) {ack : LighterCancelAck}
      → (send_order_cancel w order_index t n).answer ≡ some ack
      → ack.ok ≡ true
      → (length (send_order_cancel w order_index t n).sent ≡ 1)
        × ((wait : ℤ → ℤ → Bool) × (w.cancel_waiter ≡ some wait)
            × (wait order_index (pos 3000) ≡ true))
  unfolding send_order_cancel confirm_cancel
  send_order_cancel_ok w order_index t n answered ok = elim (Option-cases w.cancel_waiter) [
    | inl unset ↦ ground arith
    | inr (wait, set) ↦ (ground arith, (wait, set, ground arith))
  ]

  -- A cancel is reported as done only if it was for an index above 0, one transaction went out, and the
  -- account feed then showed the order cancelled.
  cancelled_is_confirmed :
      (t : LighterClient W) (w : World W) (order_index : ℤ) {ack : LighterCancelAck}
      → (cancel_order t w order_index false).answer ≡ some ack
      → ack.ok ≡ true
      → (pos 0 <ℤ order_index)
        × (length (cancel_order t w order_index false).sent ≡ 1)
        × ((wait : ℤ → ℤ → Bool) × (w.cancel_waiter ≡ some wait)
            × (wait order_index (pos 3000) ≡ true))
  unfolding cancel_order
  cancelled_is_confirmed t w order_index answered ok =
      elim (Bool-cases (leb_ℤ order_index (pos 0))) [
        | inl negative ↦ ground arith
        | inr positive ↦
            let shape : cancel_order t w order_index false
                ≡ with_nonce t w (send_order_cancel w order_index) =
              rw (positive, cancel_order) in
            let (ready, t', n, made, drawn, went) =
              with_nonce_answers t w (send_order_cancel w order_index) (rw shape at answered) in
            let (one, wait) =
              send_order_cancel_ok w order_index t' n (rw (shape, went) at answered) ok in
            (ground arith, rw (shape, went) one, wait)
      ]
