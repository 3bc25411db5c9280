-- ===== src/Transport/LighterSendTx.antt =====
-- src/lighter_ws_sendtx.cpp: `LighterWsSendTxTransport`, which has one request in flight. `send_tx` is in
-- two parts, between which it waits without its lock.
pub mod Answers
use Prim.Native.String.{String, ◌++◌}
use hl_maker_lighter_arb_cpp.Common.{
  ℕ, Bool, true, false, Option, none, some, List, ◌∷◌, if◌then◌else◌,
}
use hl_maker_lighter_arb_cpp.Common.Int.{pos}
use hl_maker_lighter_arb_cpp.Common.Text.{to_string}
use hl_maker_lighter_arb_cpp.Scan.{contains}
use hl_maker_lighter_arb_cpp.Transport.{make_error_body}

pub record LighterWsSendTxTransport : Type 0 where
  pub request_inflight : Bool
  pub response_ready : Bool
  pub response_body : String
  pub sent : List String

-- An answer at once is the refusal.
unfoldable pub begin_send :
    LighterWsSendTxTransport → ℕ → String → LighterWsSendTxTransport × Option String
begin_send t tx_type tx_info_json =
    if t.request_inflight then (t, some (make_error_body "lighter_ws_sendtx_busy")) else (
      record {
        request_inflight = true;
        response_ready = false;
        response_body = "";
        sent =
            ("{\"type\":\"jsonapi/sendtx\",\"data\":{\"tx_type\":"
              ++ (to_string (pos tx_type) ++ (",\"tx_info\":" ++ (tx_info_json ++ "}}"))))
            ∷ t.sent;
      },
      none,
    )

-- The wait is over: an answer is there, or the time is up.
unfoldable pub end_send : LighterWsSendTxTransport → LighterWsSendTxTransport × String
end_send t =
    let body =
      if t.response_ready then t.response_body else make_error_body "lighter_ws_sendtx_timeout" in
    (record t { request_inflight = false; response_body = body }, body)

unfoldable pub on_message : LighterWsSendTxTransport → String → LighterWsSendTxTransport
on_message t msg =
    if contains msg "\"type\":\"connected\""
    then t
    else if t.request_inflight
    then record t { response_body = msg; response_ready = true }
    else t

unfoldable pub on_disconnect : LighterWsSendTxTransport → String → LighterWsSendTxTransport
on_disconnect t reason =
    if t.request_inflight
    then record t {
      response_body = make_error_body ("lighter_ws_disconnect_" ++ reason);
      response_ready = true;
    }
    else t
