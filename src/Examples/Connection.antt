-- ===== src/Examples/Connection.antt =====
-- The connection at concrete inputs.
use hl_maker_lighter_arb_cpp.Common.{
  ◌+◌, inl, inr, ◌≡◌, refl, true, false, none, some, List, [], ◌∷◌,
}
use hl_maker_lighter_arb_cpp.Connection.{
  WsClient, connect, on_attempt_error, schedule_reconnect, on_reconnect_timer, on_ws_handshake,
  flush_pending, on_read_error, close, do_close,
}
use hl_maker_lighter_arb_cpp.Connection.Reconnect.{
  Event, sends, attempt_error, handshake, fires, read_error, flushed, closes, close_runs, step,
  step_open, steps, Alive, steps-connect-Alive,
}
use hl_maker_lighter_arb_cpp.Connection.Outbox.{outbox, accepted, outbox-steps}

abbrev fresh : WsClient
fresh = record {
  reconnect_delay_ms = 1000;
  max_reconnect_attempts = 0;
  connected = false;
  closing = false;
  stopped = false;
  attempting = false;
  timer = none;
  reconnect_count = 0;
  pending_sends = [];
  flushing = [];
  written = [];
  reasons = [];
}

abbrev outage : List Event
outage = attempt_error ∷ fires ∷ attempt_error ∷ fires ∷ handshake ∷ read_error "eof" ∷ []

-- The second failure in a row waits twice as long; a handshake starts the count anew.
second_delay :
    (steps (connect fresh) (attempt_error ∷ fires ∷ attempt_error ∷ [])).timer ≡ some 2000
unfolding steps step step_open connect on_attempt_error schedule_reconnect on_reconnect_timer
    on_ws_handshake flush_pending on_read_error
second_delay = refl

delay_after_outage : (steps (connect fresh) outage).timer ≡ some 1000
unfolding steps step step_open connect on_attempt_error schedule_reconnect on_reconnect_timer
    on_ws_handshake flush_pending on_read_error
delay_after_outage = refl

told_once : (steps (connect fresh) outage).reasons ≡ "eof" ∷ []
unfolding steps step step_open connect on_attempt_error schedule_reconnect on_reconnect_timer
    on_ws_handshake flush_pending on_read_error
told_once = refl

gives_up :
    (steps
      (connect (record fresh { max_reconnect_attempts = 1 }))
      (attempt_error ∷ fires ∷ attempt_error ∷ [])).reasons
    ≡ "max reconnect attempts" ∷ []
unfolding steps step step_open connect on_attempt_error schedule_reconnect on_reconnect_timer
    on_ws_handshake flush_pending on_read_error
gives_up = refl

closed_stays : (steps (connect fresh) (closes ∷ close_runs ∷ handshake ∷ [])).connected ≡ false
unfolding steps step step_open connect close do_close
closed_stays = refl

steps-connect-Alive_example : Alive (steps (connect fresh) outage)
steps-connect-Alive_example =
    steps-connect-Alive fresh outage refl refl (refl, (refl, (refl, (refl, (refl, (refl, tt))))))

-- An attempt fails, a message is sent, the next attempt succeeds and is flushed, another message is sent.
abbrev busy : List Event
busy = attempt_error ∷ sends "post 1" ∷ fires ∷ handshake ∷ flushed false ∷ sends "post 2" ∷ []

outbox-steps_example :
    outbox (λ m. true) (steps (record fresh { attempting = true }) busy)
    ≡ outbox (λ m. true) (record fresh { attempting = true }) + accepted (λ m. true) busy
outbox-steps_example =
    outbox-steps (λ m. true) (record fresh { attempting = true }) busy
      (refl, (refl, (refl, (refl, (refl, (refl, tt)))))) (refl, inr (refl, refl, inl (refl, refl)))
