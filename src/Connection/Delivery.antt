-- ===== src/Connection/Delivery.antt =====
-- What is sent while a connection is made, and what becomes of it.
use Prim.Native.String.{String}
use hl_maker_lighter_arb_cpp.Common.{
  if-true, if-false, ℕ, zero, suc, ◌≡◌, refl, ◌∙◌, ap, sym, Bool, true, false, not, List, [], ◌∷◌,
  ◌++◌, length, map, arith,
}
use mathlib.Core.Path.{subst}
use mathlib.Core.List.{append_assoc, append-nil}
use hl_maker_lighter_arb_cpp.Connection.{
  WsClient, send, flush_pending, on_flushed, on_ws_handshake, on_read_error, schedule_reconnect,
}
use hl_maker_lighter_arb_cpp.Connection.Reconnect.{
  sends, flushed, handshake, read_error, step, step_open, steps,
}

-- The next `n` writes of a flush end well.
unfoldable pub flushes : WsClient → ℕ → WsClient
flushes c zero = c
flushes c (suc n) = flushes (step c (flushed false)) n

-- The write of one message of a flush that has more of them is started, and ends.
abbrev pub begun : WsClient → String → List String → WsClient
begun c message rest = record c { flushing = message ∷ rest; written = c.written ++ (message ∷ []) }

pub flush_pending-begun :
    (c : WsClient) (message : String) (rest : List String)
    → c.connected ≡ true
    → flush_pending c (message ∷ rest) ≡ begun c message rest
unfolding flush_pending
flush_pending-begun c message rest up =
    if-false (not c.connected) (record c { flushing = [] }) (begun c message rest) (ap not up)

step-begun :
    (c : WsClient) (message : String) (rest : List String)
    → c.stopped ≡ false
    → step (begun c message rest) (flushed false) ≡ flush_pending (begun c message rest) rest
unfolding step step_open on_flushed
step-begun c message rest runs =
    if-false c.stopped (begun c message rest) (flush_pending (begun c message rest) rest) runs

-- The state when a flush of these messages has ended well.
abbrev flushed_all : WsClient → List String → WsClient
flushed_all c queue = record c { flushing = []; written = c.written ++ queue }

flushes-flush_pending :
    (c : WsClient) (queue : List String)
    → c.connected ≡ true
    → c.stopped ≡ false
    → flushes (flush_pending c queue) (length queue) ≡ flushed_all c queue
unfolding flushes flush_pending
flushes-flush_pending c [] up runs =
    ap (λ ms. record c { flushing = []; written = ms }) (sym (append-nil c.written))
flushes-flush_pending c (message ∷ rest) up runs =
    ap (λ d. flushes (step d (flushed false)) (length rest)) (flush_pending-begun c message rest up)
    ∙ (ap (λ d. flushes d (length rest)) (step-begun c message rest runs)
        ∙ (flushes-flush_pending (begun c message rest) rest up runs
            ∙ ap (λ ms. record c { flushing = []; written = ms })
                (append_assoc c.written (message ∷ []) rest)))

-- Messages sent while there is no connection.
abbrev with_pending : WsClient → List String → WsClient
with_pending c ms = record c { pending_sends = c.pending_sends ++ ms }

step-with_pending :
    (c : WsClient) (m : String)
    → c.connected ≡ false
    → c.stopped ≡ false
    → step c (sends m) ≡ with_pending c (m ∷ [])
unfolding step step_open send
step-with_pending c m down runs =
    if-false c.stopped c (send c m) runs
    ∙ if-true (not c.connected) (with_pending c (m ∷ []))
        (record c { written = c.written ++ (m ∷ []) }) (ap not down)

steps-with_pending :
    (c : WsClient) (ms : List String)
    → c.connected ≡ false
    → c.stopped ≡ false
    → steps c (map sends ms) ≡ with_pending c ms
unfolding steps
steps-with_pending c [] down runs =
    ap (λ ms. record c { pending_sends = ms }) (sym (append-nil c.pending_sends))
steps-with_pending c (m ∷ ms) down runs =
    ap (λ d. steps d (map sends ms)) (step-with_pending c m down runs)
    ∙ (steps-with_pending (with_pending c (m ∷ [])) ms down runs
        ∙ ap (λ ps. record c { pending_sends = ps }) (append_assoc c.pending_sends (m ∷ []) ms))

-- The state on a handshake, before its flush.
abbrev pub connected_now : WsClient → WsClient
connected_now c = record c {
  attempting = false;
  connected = true;
  reconnect_count = 0;
  pending_sends = [];
}

step-handshake :
    (c : WsClient)
    → c.attempting ≡ true
    → c.stopped ≡ false
    → step c handshake ≡ flush_pending (connected_now c) c.pending_sends
unfolding step step_open on_ws_handshake
step-handshake c trying runs =
    if-false c.stopped c (step_open c handshake) runs
    ∙ if-true c.attempting (flush_pending (connected_now c) c.pending_sends) c trying

-- Messages sent while a connection is attempted wait, behind the ones that waited before them. After the
-- attempt's last handshake they have all been written, in that order, once as many writes have ended well,
-- and none of them waits any more.
queued_is_written :
    (c : WsClient) (ms : List String)
    → c.attempting ≡ true
    → c.connected ≡ false
    → c.stopped ≡ false
    → flushes (step (steps c (map sends ms)) handshake) (length (c.pending_sends ++ ms))
      ≡ record c {
        attempting = false;
        connected = true;
        reconnect_count = 0;
        pending_sends = [];
        flushing = [];
        written = c.written ++ (c.pending_sends ++ ms);
      }
queued_is_written c ms trying down runs =
    ap (λ d. flushes (step d handshake) (length (c.pending_sends ++ ms)))
      (steps-with_pending c ms down runs)
    ∙ (ap (λ d. flushes d (length (c.pending_sends ++ ms)))
          (step-handshake (with_pending c ms) trying runs)
        ∙ flushes-flush_pending (connected_now (with_pending c ms)) (c.pending_sends ++ ms) refl
            runs)

-- The state after a connection is lost: not connected, with nothing written or queued, and the same flush.
abbrev Lost : WsClient → WsClient → Type 0
Lost c d =
    (d.connected ≡ false)
    × (d.stopped ≡ c.stopped)
    × (d.flushing ≡ c.flushing)
    × (d.written ≡ c.written)
    × (d.pending_sends ≡ c.pending_sends)

on_read_error-Lost : (c : WsClient) (reason : String) → Lost c (on_read_error c reason)
unfolding on_read_error schedule_reconnect
on_read_error-Lost c reason = ground arith

-- The flush is over, with nothing more written or queued.
abbrev pub Dropped : WsClient → WsClient → Type 0
Dropped c d = (d.flushing ≡ []) × (d.written ≡ c.written) × (d.pending_sends ≡ c.pending_sends)

on_flushed-Dropped :
    (d : WsClient) (queue : List String) (error : Bool)
    → d.flushing ≡ queue
    → d.connected ≡ false
    → Dropped d (on_flushed d error)
unfolding on_flushed flush_pending
on_flushed-Dropped d [] error is down = ground arith
on_flushed-Dropped d (message ∷ []) error is down = ground arith
on_flushed-Dropped d (message ∷ (next ∷ rest)) error is down = ground arith

on_read_error-Dropped :
    (c : WsClient) (reason : String) (error : Bool)
    → Dropped c (on_flushed (on_read_error c reason) error)
on_read_error-Dropped c reason error = (dropped.0, dropped.1 ∙ lost.3, dropped.2 ∙ lost.4)
  where
    lost : Lost c (on_read_error c reason)
    lost = on_read_error-Lost c reason

    dropped : Dropped (on_read_error c reason) (on_flushed (on_read_error c reason) error)
    dropped =
        on_flushed-Dropped (on_read_error c reason) (on_read_error c reason).flushing error refl
          lost.0

-- Where a connection is lost while a flush is being written, the end of the write, with or without an
-- error, ends the flush: no more of it is written, and none of it is queued for the next connection.
step-Dropped :
    (c : WsClient) (reason : String) (error : Bool)
    → c.connected ≡ true
    → c.stopped ≡ false
    → Dropped c (step (step c (read_error reason)) (flushed error))
unfolding step step_open
step-Dropped c reason error up runs =
    subst (Dropped c) (sym (ap (λ d. step d (flushed error)) first ∙ second))
      (on_read_error-Dropped c reason error)
  where
    first : step c (read_error reason) ≡ on_read_error c reason
    first =
        if-false c.stopped c (step_open c (read_error reason)) runs
        ∙ if-true c.connected (on_read_error c reason) c up

    lost : Lost c (on_read_error c reason)
    lost = on_read_error-Lost c reason

    second :
        step (on_read_error c reason) (flushed error) ≡ on_flushed (on_read_error c reason) error
    second =
        if-false (on_read_error c reason).stopped (on_read_error c reason)
          (on_flushed (on_read_error c reason) error) (lost.1 ∙ runs)
