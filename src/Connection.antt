-- ===== src/Connection.antt =====
-- src/ws_client.cpp: `WsClient`, one connection, its queue of messages and its reconnects. Everything runs
-- on the connection's thread, so a job is one step; sockets and TLS are Boost.Beast, of which the model has
-- the outcomes. Pings and the bytes of messages are left out.
pub mod Reconnect
pub mod Delivery
pub mod Outbox
use Prim.Native.String.{String}
use hl_maker_lighter_arb_cpp.Common.{
  ℕ, suc, ◌*◌, Bool, true, false, not, ◌&&◌, ◌||◌, Option, none, some, List, [], ◌∷◌, ◌++◌, leb,
  ltb, if◌then◌else◌,
}

-- `stopped`: the connection's thread runs no more jobs, since it is torn down or an exception ended it.
-- `attempting`: between `do_resolve` and the end of the handshakes. `timer`: the delay of the reconnect
-- that is set. `flushing`: what `flush_pending` has still to write, the first of which is being written.
-- `written`: the writes that were started, and `reasons`: what `on_disconnect_` was told, both in order.
pub record WsClient : Type 0 where
  pub reconnect_delay_ms : ℕ
  pub max_reconnect_attempts : ℕ
  pub connected : Bool
  pub closing : Bool
  pub stopped : Bool
  pub attempting : Bool
  pub timer : Option ℕ
  pub reconnect_count : ℕ
  pub pending_sends : List String
  pub flushing : List String
  pub written : List String
  pub reasons : List String

unfoldable pub connect : WsClient → WsClient
connect c = record c { closing = false; reconnect_count = 0; attempting = true }

unfoldable pub send : WsClient → String → WsClient
send c message =
    if not c.connected
    then record c { pending_sends = c.pending_sends ++ (message ∷ []) }
    else record c { written = c.written ++ (message ∷ []) }

-- The attempts are unlimited where their greatest number is 0.
unfoldable pub schedule_reconnect : WsClient → WsClient
schedule_reconnect c =
    if c.closing
    then c
    else if ltb 0 c.max_reconnect_attempts && leb c.max_reconnect_attempts c.reconnect_count
    then record c { reasons = c.reasons ++ ("max reconnect attempts" ∷ []) }
    else record c {
      reconnect_count = suc c.reconnect_count;
      timer = some (c.reconnect_delay_ms * suc c.reconnect_count);
    }

-- The rest of the queue: its first message is written, unless the connection is lost, and then the rest
-- is let go.
unfoldable pub flush_pending : WsClient → List String → WsClient
flush_pending c [] = record c { flushing = [] }
flush_pending c (message ∷ rest) =
    if not c.connected
    then record c { flushing = [] }
    else record c { flushing = message ∷ rest; written = c.written ++ (message ∷ []) }

-- An error while resolving, connecting or shaking hands.
unfoldable pub on_attempt_error : WsClient → WsClient
on_attempt_error c = schedule_reconnect (record c { attempting = false })

unfoldable pub on_ws_handshake : WsClient → WsClient
on_ws_handshake c =
    flush_pending
      (record c { attempting = false; connected = true; reconnect_count = 0; pending_sends = [] })
      c.pending_sends

-- The write of the first message of the flush has ended, with or without an error.
unfoldable pub on_flushed : WsClient → (error : Bool) → WsClient
on_flushed c error = elim c.flushing [
  | [] ↦ c
  | message ∷ rest ↦ if error then record c { flushing = [] } else flush_pending c rest
]

unfoldable pub on_read_error : WsClient → String → WsClient
on_read_error c reason =
    if c.closing
    then record c { connected = false }
    else schedule_reconnect (record c { connected = false; reasons = c.reasons ++ (reason ∷ []) })

unfoldable pub on_reconnect_timer : WsClient → WsClient
on_reconnect_timer c =
    if c.closing then record c { timer = none } else record c { timer = none; attempting = true }

-- `close` sets `closing` at once and posts `do_close`.
unfoldable pub close : WsClient → WsClient
close c = record c { closing = true }

unfoldable pub do_close : WsClient → WsClient
do_close c = record c { timer = none; connected = false; stopped = true }

-- An exception of a callback ends `ioc_.run()`: it is caught outside, logged, and the thread is over. The rest
-- of the state is as the exception found it.
unfoldable pub run_ends : WsClient → WsClient
run_ends c = record c { stopped = true }

-- `on_disconnect_` is called between `connected_` and the reconnect.
unfoldable pub on_disconnect_throws : WsClient → String → WsClient
on_disconnect_throws c reason =
    run_ends (record c { connected = false; reasons = c.reasons ++ (reason ∷ []) })
