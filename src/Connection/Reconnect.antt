-- ===== src/Connection/Reconnect.antt =====
-- The connection is always on its way back.
use mathlib.Core.Path.{subst}
use Prim.Native.String.{String}
use hl_maker_lighter_arb_cpp.Common.{
  ◌≡◌, refl, sym, ap, ◌∙◌, inl, inr, if-true, if-false, Bool-cases, All, Bool, true, false, not,
  ◌&&◌, ◌||◌, List, [], ◌∷◌, has_value, if◌then◌else◌, arith,
}
use hl_maker_lighter_arb_cpp.Connection.{
  WsClient, connect, send, schedule_reconnect, flush_pending, on_attempt_error, on_ws_handshake,
  on_flushed, on_read_error, on_reconnect_timer, close, do_close, run_ends, on_disconnect_throws,
}

pub data Event : Type 0 where
  sends : String → Event
  attempt_error handshake fires closes close_runs : Event
  flushed : Bool → Event
  read_error : String → Event
  message_throws : Event
  disconnect_throws : String → Event

-- What can not happen in a state changes nothing: an attempt ends only while there is one, the timer fires
-- only if it is set, a read ends only on a connection, and `do_close` runs only after `close`.
unfoldable pub step_open : WsClient → Event → WsClient
step_open c (sends message) = send c message
step_open c attempt_error = if c.attempting then on_attempt_error c else c
step_open c handshake = if c.attempting then on_ws_handshake c else c
step_open c fires = if has_value c.timer then on_reconnect_timer c else c
step_open c closes = close c
step_open c close_runs = if c.closing then do_close c else c
step_open c (flushed error) = on_flushed c error
step_open c (read_error reason) = if c.connected then on_read_error c reason else c
step_open c message_throws = if c.connected then run_ends c else c
step_open c (disconnect_throws reason) =
    if c.connected && not c.closing then on_disconnect_throws c reason else c

abbrev pub throws : Event → Bool
throws message_throws = true
throws (disconnect_throws reason) = true
throws _ = false

abbrev is_close : Event → Bool
is_close closes = true
is_close _ = false

-- Once the thread is over, jobs that are posted are not run; only `close` does something of its own.
abbrev pub step_stopped : WsClient → Event → WsClient
step_stopped c e = if is_close e then close c else c

unfoldable pub step : WsClient → Event → WsClient
step c e = if c.stopped then step_stopped c e else step_open c e

unfoldable pub steps : WsClient → List Event → WsClient
steps c [] = c
steps c (e ∷ es) = steps (step c e) es

-- Closed, or with a thread that runs and connected, trying to connect or about to try; and the attempts are
-- unlimited.
abbrev pub Alive : WsClient → Type 0
Alive c =
    (c.max_reconnect_attempts ≡ 0)
    × ((c.closing || (not c.stopped && (c.connected || (c.attempting || has_value c.timer))))
        ≡ true)

flush_pending-Alive : (c : WsClient) (rest : List String) → Alive c → Alive (flush_pending c rest)
unfolding flush_pending
flush_pending-Alive c [] alive = alive
flush_pending-Alive c (message ∷ rest) alive = ground arith

on_flushed-Alive :
    (c : WsClient) (queue : List String) (error : Bool)
    → c.flushing ≡ queue
    → Alive c
    → Alive (on_flushed c error)
unfolding on_flushed
on_flushed-Alive c [] error is alive = rw (is, on_flushed) alive
on_flushed-Alive c (message ∷ rest) true is alive = rw (is, on_flushed) alive
on_flushed-Alive c (message ∷ rest) false is alive =
    rw (is, on_flushed) (flush_pending-Alive c rest alive)

if-Alive : (b : Bool) (c d : WsClient) → Alive c → Alive d → Alive (if b then c else d)
if-Alive true c d then_alive else_alive = then_alive
if-Alive false c d then_alive else_alive = else_alive

step_open-Alive : (c : WsClient) (e : Event) → throws e ≡ false → Alive c → Alive (step_open c e)
unfolding step_open send on_attempt_error schedule_reconnect on_read_error on_reconnect_timer close
    do_close on_ws_handshake
step_open-Alive c (sends message) quiet alive = ground arith
step_open-Alive c attempt_error quiet alive = ground arith
step_open-Alive c handshake quiet alive =
    if-Alive c.attempting (on_ws_handshake c) c
      (flush_pending-Alive
        (record c { attempting = false; connected = true; reconnect_count = 0; pending_sends = [] })
        c.pending_sends (alive.0, ground arith))
      alive
step_open-Alive c fires quiet alive = ground arith
step_open-Alive c closes quiet alive = ground arith
step_open-Alive c close_runs quiet alive = ground arith
step_open-Alive c (flushed error) quiet alive = on_flushed-Alive c c.flushing error refl alive
step_open-Alive c (read_error reason) quiet alive = ground arith
step_open-Alive c message_throws quiet alive = cc
step_open-Alive c (disconnect_throws reason) quiet alive = cc

close-Alive : (c : WsClient) → Alive c → Alive (close c)
unfolding close
close-Alive c alive = ground arith

steps-Alive :
    (c : WsClient) (es : List Event) → All (λ e. throws e ≡ false) es → Alive c → Alive (steps c es)
unfolding steps step
steps-Alive c [] quiet alive = alive
steps-Alive c (e ∷ es) (here, there) alive = steps-Alive (step c e) es there (
    if-Alive c.stopped (step_stopped c e) (step_open c e)
      (if-Alive (is_close e) (close c) c (close-Alive c alive) alive)
      (step_open-Alive c e here alive))

-- Once it has connected, a client whose attempts are not limited never stands still as long as none of its
-- callbacks throws: whatever else happens, it is closed, or its thread runs and it is connected, in an
-- attempt, or has the timer of the next one set.
pub steps-connect-Alive :
    (c : WsClient) (es : List Event)
    → c.max_reconnect_attempts ≡ 0
    → c.stopped ≡ false
    → All (λ e. throws e ≡ false) es
    → Alive (steps (connect c) es)
unfolding connect
steps-connect-Alive c es unlimited runs quiet =
    steps-Alive (connect c) es quiet (unlimited, ground arith)

-- What is left of a client whose thread is over.
abbrev Over : WsClient → WsClient → Type 0
Over c d = (d.stopped ≡ true) × (d.connected ≡ c.connected) × (d.written ≡ c.written)

steps-Over : (c : WsClient) (es : List Event) → c.stopped ≡ true → Over c (steps c es)
unfolding steps step close
steps-Over c [] over = (over, refl, refl)
steps-Over c (e ∷ es) over =
    let first = if-true c.stopped (step_stopped c e) (step_open c e) over in
    elim (Bool-cases (is_close e)) [
      | inl closed ↦
          let now : step c e ≡ close c = first ∙ if-true (is_close e) (close c) c closed in
          subst (λ d. Over c (steps d es)) (sym now) (steps-Over (close c) es over)
      | inr other ↦
          let now : step c e ≡ c = first ∙ if-false (is_close e) (close c) c other in
          subst (λ d. Over c (steps d es)) (sym now) (steps-Over c es over)
    ]

-- An exception of the callback for a message leaves a client that says it is connected for ever and
-- writes nothing more, whatever happens and whatever is sent.
thrown_stays :
    (c : WsClient) (es : List Event)
    → c.connected ≡ true
    → c.stopped ≡ false
    → let dead = steps c (message_throws ∷ es) in
      (dead.connected ≡ true) × (dead.written ≡ c.written)
unfolding steps step step_open run_ends
thrown_stays c es up runs =
    let ends : step c message_throws ≡ record c { stopped = true } = rw (runs, up) refl in
    let (over, same, unsent) = steps-Over (record c { stopped = true }) es refl in
    (
      ap (λ d. (steps d es).connected) ends ∙ same ∙ up,
      ap (λ d. (steps d es).written) ends ∙ unsent,
    )
