-- ===== src/Connection/Outbox.antt =====
-- The connection as a bag of accepted messages.
use Prim.Native.String.{String}
use hl_maker_lighter_arb_cpp.Common.{
  if-true, if-false, ℕ, ◌+◌, ◌≡◌, ◌⊎◌, inl, inr, refl, sym, ap, ◌∙◌, Bool, true, false, not, none,
  List, [], ◌∷◌, ◌++◌, All, if◌then◌else◌, arith,
}
use mathlib.Core.Path.{subst}
use hl_maker_lighter_arb_cpp.Connection.Delivery.{flush_pending-begun, connected_now}
use hl_maker_lighter_arb_cpp.Connection.{
  WsClient, send, flush_pending, on_flushed, on_ws_handshake, on_attempt_error, schedule_reconnect,
  on_reconnect_timer, close,
}
use hl_maker_lighter_arb_cpp.Connection.Reconnect.{
  Event, sends, flushed, handshake, attempt_error, fires, closes, read_error, close_runs,
  message_throws, disconnect_throws, step, step_open, step_stopped, steps,
}

abbrev pub rest_of : List String → List String
rest_of [] = []
rest_of (m ∷ ms) = ms

-- The events of a time without failures of a connection that was made, and without its end.
abbrev pub is_calm : Event → Bool
is_calm (sends m) = true
is_calm attempt_error = true
is_calm handshake = true
is_calm fires = true
is_calm closes = true
is_calm close_runs = false
is_calm (flushed error) = not error
is_calm (read_error reason) = false
is_calm message_throws = false
is_calm (disconnect_throws reason) = false

-- Connected, in an attempt, or waiting for the next one; only a connection flushes.
abbrev pub Settled : WsClient → Type 0
Settled c =
    (c.stopped ≡ false)
    × (((c.connected ≡ true) × (c.attempting ≡ false) × (c.timer ≡ none))
        ⊎ ((c.connected ≡ false)
            × (c.flushing ≡ [])
            × (((c.attempting ≡ true) × (c.timer ≡ none)) ⊎ (c.attempting ≡ false))))

module _ (p : String → Bool) where
  abbrev pub count : List String → ℕ
  count [] = 0
  count (m ∷ ms) = (if p m then 1 else 0) + count ms

  count-append : (xs ys : List String) → count (xs ++ ys) ≡ count xs + count ys
  count-append [] ys = omega arith
  count-append (x ∷ xs) ys = omega (arith, count-append xs ys)

  -- The messages of one kind that are written or have still to be written.
  unfoldable pub outbox : WsClient → ℕ
  outbox c = count c.written + (count (rest_of c.flushing) + count c.pending_sends)

  -- The specification: the messages of one kind that `send` was called with.
  abbrev pub given : Event → ℕ
  given (sends m) = if p m then 1 else 0
  given attempt_error = 0
  given handshake = 0
  given fires = 0
  given closes = 0
  given close_runs = 0
  given (flushed error) = 0
  given (read_error reason) = 0
  given message_throws = 0
  given (disconnect_throws reason) = 0

  abbrev pub accepted : List Event → ℕ
  accepted [] = 0
  accepted (e ∷ es) = given e + accepted es

  outbox-flush_pending :
      (c : WsClient) (queue : List String)
      → c.connected ≡ true
      → outbox (flush_pending c queue) ≡ count c.written + (count queue + count c.pending_sends)
  unfolding outbox flush_pending
  outbox-flush_pending c [] up = omega arith
  outbox-flush_pending c (m ∷ rest) up = grind (arith, count-append c.written (m ∷ []))

  -- What a calm event does: `n` messages more are accepted, and the connection stays settled.
  abbrev Carries : WsClient → ℕ → WsClient → Type 0
  Carries c n d = (outbox d ≡ outbox c + n) × Settled d

  send-Carries :
      (c : WsClient) (m : String) → Settled c → Carries c (if p m then 1 else 0) (send c m)
  unfolding send outbox
  send-Carries c m (runs, inl (up, idle, off)) =
      subst (Carries c (if p m then 1 else 0))
        (sym (
          if-false (not c.connected) (record c { pending_sends = c.pending_sends ++ (m ∷ []) })
            (record c { written = c.written ++ (m ∷ []) }) (ap not up)))
        (omega (arith, count-append c.written (m ∷ [])), (runs, inl (up, idle, off)))
  send-Carries c m (runs, inr (down, none_left, next)) =
      subst (Carries c (if p m then 1 else 0))
        (sym (
          if-true (not c.connected) (record c { pending_sends = c.pending_sends ++ (m ∷ []) })
            (record c { written = c.written ++ (m ∷ []) }) (ap not down)))
        (omega (arith, count-append c.pending_sends (m ∷ [])), (runs, inr (down, none_left, next)))

  flush_pending-Settled :
      (c : WsClient) (queue : List String)
      → c.stopped ≡ false
      → c.connected ≡ true
      → c.attempting ≡ false
      → c.timer ≡ none
      → Settled (flush_pending c queue)
  unfolding flush_pending
  flush_pending-Settled c [] runs up idle off = (runs, inl (up, idle, off))
  flush_pending-Settled c (m ∷ rest) runs up idle off =
      subst Settled (sym (flush_pending-begun c m rest up)) (runs, inl (up, idle, off))

  on_flushed-none : (c : WsClient) → c.flushing ≡ [] → on_flushed c false ≡ c
  unfolding on_flushed
  on_flushed-none c is = simp (is, on_flushed) refl

  on_flushed-next :
      (c : WsClient) (m : String) (rest : List String)
      → c.flushing ≡ m ∷ rest
      → on_flushed c false ≡ flush_pending c rest
  unfolding on_flushed
  on_flushed-next c m rest is = simp (is, on_flushed) refl

  on_flushed-Carries :
      (c : WsClient) (queue : List String)
      → c.flushing ≡ queue
      → Settled c
      → Carries c 0 (on_flushed c false)
  unfolding outbox
  on_flushed-Carries c [] is settled =
      subst (Carries c 0) (sym (on_flushed-none c is)) (omega arith, settled)
  on_flushed-Carries c (m ∷ rest) is (runs, inl (up, idle, off)) =
      subst (Carries c 0) (sym (on_flushed-next c m rest is))
        (carried, flush_pending-Settled c rest runs up idle off)
    where
      left : count (rest_of c.flushing) ≡ count rest
      left = ap (λ q. count (rest_of q)) is

      carried : outbox (flush_pending c rest) ≡ outbox c + 0
      carried = outbox-flush_pending c rest up ∙ omega (arith, left)
  on_flushed-Carries c (m ∷ rest) is (runs, inr (down, none_left, next)) = cc

  handshake-Carries : (c : WsClient) → Settled c → Carries c 0 (step_open c handshake)
  unfolding step_open on_ws_handshake outbox
  handshake-Carries c (runs, inl (up, idle, off)) =
      subst (Carries c 0) (sym (if-false c.attempting (on_ws_handshake c) c idle))
        (omega arith, (runs, inl (up, idle, off)))
  handshake-Carries c (runs, inr (down, none_left, inl (trying, off))) =
      subst (Carries c 0) (sym (if-true c.attempting (on_ws_handshake c) c trying))
        (carried, flush_pending-Settled (connected_now c) c.pending_sends runs refl refl off)
    where
      left : count (rest_of c.flushing) ≡ 0
      left = ap (λ q. count (rest_of q)) none_left

      carried : outbox (flush_pending (connected_now c) c.pending_sends) ≡ outbox c + 0
      carried = outbox-flush_pending (connected_now c) c.pending_sends refl ∙ omega (arith, left)
  handshake-Carries c (runs, inr (down, none_left, inr idle)) =
      subst (Carries c 0) (sym (if-false c.attempting (on_ws_handshake c) c idle))
        (omega arith, (runs, inr (down, none_left, inr idle)))

  attempt_error-Carries : (c : WsClient) → Settled c → Carries c 0 (step_open c attempt_error)
  unfolding step_open on_attempt_error schedule_reconnect outbox
  attempt_error-Carries c settled = ground arith

  fires-Carries : (c : WsClient) → Settled c → Carries c 0 (step_open c fires)
  unfolding step_open on_reconnect_timer outbox
  fires-Carries c settled = ground arith

  closes-Carries : (c : WsClient) → Settled c → Carries c 0 (step_open c closes)
  unfolding step_open close outbox
  closes-Carries c settled = (omega arith, settled)

  step-open : (c : WsClient) (e : Event) → Settled c → step c e ≡ step_open c e
  unfolding step
  step-open c e settled = if-false c.stopped (step_stopped c e) (step_open c e) settled.0

  step_open-Carries :
      (c : WsClient) (e : Event)
      → is_calm e ≡ true
      → Settled c
      → Carries c (given e) (step_open c e)
  unfolding step_open
  step_open-Carries c (sends m) calm settled = send-Carries c m settled
  step_open-Carries c attempt_error calm settled = attempt_error-Carries c settled
  step_open-Carries c handshake calm settled = handshake-Carries c settled
  step_open-Carries c fires calm settled = fires-Carries c settled
  step_open-Carries c closes calm settled = closes-Carries c settled
  step_open-Carries c close_runs calm settled = cc
  step_open-Carries c (flushed false) calm settled = on_flushed-Carries c c.flushing refl settled
  step_open-Carries c (flushed true) calm settled = cc
  step_open-Carries c (read_error reason) calm settled = cc
  step_open-Carries c message_throws calm settled = cc
  step_open-Carries c (disconnect_throws reason) calm settled = cc

  step-Carries :
      (c : WsClient) (e : Event) → is_calm e ≡ true → Settled c → Carries c (given e) (step c e)
  step-Carries c e calm settled =
      subst (Carries c (given e)) (sym (step-open c e settled)) (step_open-Carries c e calm settled)

  -- As long as no connection is lost, no write of a flush fails, no callback throws and the client is not
  -- torn down, nothing is lost and nothing is sent twice: for any kind of message, the writes that were
  -- started and what has still to be written number together what they did before and what `send` was given
  -- since, whatever attempts fail and whenever the connection is made.
  pub outbox-steps :
      (c : WsClient) (es : List Event)
      → All (λ e. is_calm e ≡ true) es
      → Settled c
      → outbox (steps c es) ≡ outbox c + accepted es
  unfolding steps
  outbox-steps c [] calm settled = omega arith
  outbox-steps c (e ∷ es) (here, there) settled =
      omega (arith, carried.0, outbox-steps (step c e) es there carried.1)
    where
      carried : Carries c (given e) (step c e)
      carried = step-Carries c e here settled
