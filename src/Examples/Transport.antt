-- ===== src/Examples/Transport.antt =====
-- The request channels at concrete inputs.
use Prim.Native.String.{String, ◌++◌}
use hl_maker_lighter_arb_cpp.Common.{
  ◌≡◌, refl, true, false, none, some, List, [], ◌∷◌, ◌==◌, if◌then◌else◌, arith,
}
use hl_maker_lighter_arb_cpp.Double.Fixed.{fixed_double}
use hl_maker_lighter_arb_cpp.Transport.{make_error_body}
use hl_maker_lighter_arb_cpp.Transport.HlPost.Parse.{
  parse_post_id, response_body, extract_json_value, json_value, quote_end, bracket_end,
}
use hl_maker_lighter_arb_cpp.Scan.{
  contains, find_from, skip, drop, span, digits_below, digits_value,
}
use hl_maker_lighter_arb_cpp.Transport.HlPost.Table.{PendingResponse, HlWsPostTransport}
use hl_maker_lighter_arb_cpp.Transport.HlPost.Answers.{
  Event, post, message, disconnect, stop_waiting, steps, Inv, post_run-Inv, answer_stays,
}
use hl_maker_lighter_arb_cpp.Transport.HlPost.Locks.{
  waiting, giving_up, idle, failing, Locks, Reach, disconnect_deadlocks,
}
use hl_maker_lighter_arb_cpp.Transport.LighterSendTx.{
  LighterWsSendTxTransport, begin_send, end_send,
}
use hl_maker_lighter_arb_cpp.Transport.LighterSendTx.Answers.{
  message as arrives, arrivals, last_told, send_tx_returns,
}

abbrev unanswered : PendingResponse
unanswered = record { ready = false; body = ""; response_rx_ns = 0 }

abbrev fresh : HlWsPostTransport
fresh = record { next_id = 1; pending = []; heap = λ _. unanswered; next_address = 0; sent = [] }

-- Two requests in flight.
abbrev two : HlWsPostTransport
two = record fresh { next_id = 3; pending = (2, 1) ∷ (1, 0) ∷ []; next_address = 2 }

-- The second of them is answered.
abbrev one_answered : HlWsPostTransport
one_answered = record two {
  pending = (1, 0) ∷ [];
  heap =
      λ a. if a == 1 then record { ready = true; body = "{}"; response_rx_ns = 5 } else unanswered;
}

abbrev response : String → String → String
response id payload =
    "{\"channel\":\"post\",\"data\":{\"id\":"
    ++ (id ++ (",\"response\":{\"type\":\"action\",\"payload\":" ++ (payload ++ "}}}")))

abbrev traffic : List Event
traffic =
    post "{}"
    ∷ message (response "1" "{\"status\":\"ok\"}") 7
    ∷ stop_waiting 2 1
    ∷ disconnect "eof"
    ∷ []

response_read : parse_post_id (response "1" "{}") ≡ some (some 1)
unfolding parse_post_id contains find_from skip digits_below drop span digits_value
response_read = refl

body_read : response_body (response "1" "{\"status\":\"ok\"}") ≡ "{\"status\":\"ok\"}"
unfolding response_body extract_json_value find_from json_value drop skip quote_end bracket_end span
body_read = refl

quoted_error :
    response_body "{\"id\":1,\"response\":{\"type\":\"error\",\"payload\":\"Bad\"}}"
    ≡ "{\"status\":\"error\",\"error\":\"\"Bad\"\"}"
unfolding response_body extract_json_value find_from json_value drop skip quote_end bracket_end span
    make_error_body
quoted_error = refl

post_run-Inv_example : Inv (steps fresh traffic)
post_run-Inv_example = post_run-Inv fresh traffic tt

answer_stays_example : (steps one_answered traffic).heap 1 ≡ one_answered.heap 1
answer_stays_example =
    answer_stays one_answered traffic 1 (omega arith, refl, tt, tt) (omega arith) refl

abbrev locks : Locks
locks = record { pending = (1, 0) ∷ []; callers = λ _. waiting; connection = idle }

disconnect_deadlocks_example :
    (t : Locks) × Reach locks t
    × ((u : Locks)
        → Reach t u
        → (u.connection ≡ failing ((1, 0) ∷ []))
          × (u.callers 0 ≡ giving_up)
          × (u.pending ≡ (1, 0) ∷ []))
disconnect_deadlocks_example = disconnect_deadlocks locks 1 0 [] refl refl refl

abbrev free : LighterWsSendTxTransport
free = record { request_inflight = false; response_ready = false; response_body = ""; sent = [] }

send_tx_returns_example :
    let arriving = arrives "{\"code\":200}" ∷ arrives "{\"type\":\"ping\"}" ∷ [] in
    let (t₁, refused) = begin_send free 14 "{}" in
    let (t₂, body) = end_send (arrivals t₁ arriving) in
    (refused ≡ none)
    × (body ≡ last_told (make_error_body "lighter_ws_sendtx_timeout") arriving)
    × (t₂.request_inflight ≡ false)
send_tx_returns_example =
    send_tx_returns free 14 "{}" (arrives "{\"code\":200}" ∷ arrives "{\"type\":\"ping\"}" ∷ [])
      refl
