-- ===== src/Transport/LighterSendTx/Answers.antt =====
-- What a caller of `send_tx` is told.
use Prim.Native.String.{String, ◌++◌}
use hl_maker_lighter_arb_cpp.Common.{
  ℕ, ◌≡◌, refl, true, false, Option, none, some, List, [], ◌∷◌, if◌then◌else◌, arith,
}
use hl_maker_lighter_arb_cpp.Scan.{contains, or_else}
use hl_maker_lighter_arb_cpp.Transport.{make_error_body}
use hl_maker_lighter_arb_cpp.Transport.LighterSendTx.{
  LighterWsSendTxTransport, begin_send, end_send, on_message, on_disconnect,
}

pub data Arrival : Type 0 where
  message : String → Arrival
  lost : String → Arrival

unfoldable pub arrive : LighterWsSendTxTransport → Arrival → LighterWsSendTxTransport
arrive t (message msg) = on_message t msg
arrive t (lost reason) = on_disconnect t reason

unfoldable pub arrivals : LighterWsSendTxTransport → List Arrival → LighterWsSendTxTransport
arrivals t [] = t
arrivals t (a ∷ more) = arrivals (arrive t a) more

-- What an arrival tells a caller that waits: everything but the greeting of a new connection.
unfoldable pub told : Arrival → Option String
told (message msg) = if contains msg "\"type\":\"connected\"" then none else some msg
told (lost reason) = some (make_error_body ("lighter_ws_disconnect_" ++ reason))

-- The last thing told, else what was told before.
unfoldable pub last_told : String → List Arrival → String
last_told before [] = before
last_told before (a ∷ more) = last_told (or_else (told a) before) more

-- A call in flight whose answer so far is `body`.
abbrev InFlight : LighterWsSendTxTransport → String → Type 0
InFlight t body =
    (t.request_inflight ≡ true)
    × ((if t.response_ready then t.response_body else make_error_body "lighter_ws_sendtx_timeout")
        ≡ body)

arrive-InFlight :
    (t : LighterWsSendTxTransport) (a : Arrival) (body : String)
    → InFlight t body
    → InFlight (arrive t a) (or_else (told a) body)
unfolding arrive told on_message on_disconnect
arrive-InFlight t (message msg) body (busy, so_far) = ground arith
arrive-InFlight t (lost reason) body (busy, so_far) = ground arith

arrivals-InFlight :
    (t : LighterWsSendTxTransport) (as_ : List Arrival) (body : String)
    → InFlight t body
    → InFlight (arrivals t as_) (last_told body as_)
unfolding arrivals last_told
arrivals-InFlight t [] body open_ = open_
arrivals-InFlight t (a ∷ more) body open_ =
    arrivals-InFlight (arrive t a) more (or_else (told a) body) (arrive-InFlight t a body open_)

-- A call that is let in returns the last thing that arrived while it waited, whatever it answered, or a
-- time-out when nothing did, and the next call is let in.
pub send_tx_returns :
    (t : LighterWsSendTxTransport) (tx_type : ℕ) (tx_info_json : String) (as_ : List Arrival)
    → t.request_inflight ≡ false
    → let (t₁, refused) = begin_send t tx_type tx_info_json in
      let (t₂, body) = end_send (arrivals t₁ as_) in
      (refused ≡ none)
      × (body ≡ last_told (make_error_body "lighter_ws_sendtx_timeout") as_)
      × (t₂.request_inflight ≡ false)
unfolding begin_send end_send
send_tx_returns t tx_type tx_info_json as_ free =
    let t₁ = (begin_send t tx_type tx_info_json).0 in
    let timeout = make_error_body "lighter_ws_sendtx_timeout" in
    let start : InFlight t₁ timeout = (ground arith, ground arith) in
    (ground arith, (arrivals-InFlight t₁ as_ timeout start).1, refl)

-- While a call waits, every other call is refused at once: nothing is sent and the call that waits is
-- not disturbed.
second_call_refused :
    (t : LighterWsSendTxTransport) (tx_type tx_type' : ℕ) (info info' : String) (as_ : List Arrival)
    → t.request_inflight ≡ false
    → let t₁ = arrivals (begin_send t tx_type info).0 as_ in
      begin_send t₁ tx_type' info' ≡ (t₁, some (make_error_body "lighter_ws_sendtx_busy"))
unfolding begin_send
second_call_refused t tx_type tx_type' info info' as_ free =
    let t₁ = (begin_send t tx_type info).0 in
    let timeout = make_error_body "lighter_ws_sendtx_timeout" in
    let start : InFlight t₁ timeout = (ground arith, ground arith) in
    let busy = (arrivals-InFlight t₁ as_ timeout start).0 in rw busy

-- Answers carry no mark of the call that they answer: when a call has timed out and the next one waits,
-- the answer to the first is returned by the second.
late_answer_taken :
    (t : LighterWsSendTxTransport) (tx_type tx_type' : ℕ) (info info' late : String)
    → t.request_inflight ≡ false
    → contains late "\"type\":\"connected\"" ≡ false
    → let (t₁, body) = end_send (begin_send t tx_type info).0 in
      let (t₂, refused) = begin_send t₁ tx_type' info' in
      (body ≡ make_error_body "lighter_ws_sendtx_timeout")
      × (refused ≡ none)
      × ((end_send (on_message t₂ late)).1 ≡ late)
unfolding begin_send end_send on_message
late_answer_taken t tx_type tx_type' info info' late free plain = ground arith
