-- ===== src/Transport/HlPost/Answers.antt =====
-- Who gets which answer, over any sequence of the callers' and the connection's steps.
use Prim.Native.String.{String}
use hl_maker_lighter_arb_cpp.Common.{
  ℕ, ◌<◌, ◌≤◌, ◌≢◌, ◌≡◌, refl, ap, ◌∙◌, ◌⊎◌, inl, inr, true, false, none, some, List, [], ◌∷◌, ◌==◌,
  Bool-cases, Option-cases, if◌then◌else◌, arith,
}
use hl_maker_lighter_arb_cpp.Double.{Double}
use hl_maker_lighter_arb_cpp.Scan.{or_else}
use hl_maker_lighter_arb_cpp.Transport.HlPost.Parse.{parse_post_id, response_body}
use hl_maker_lighter_arb_cpp.Transport.HlPost.Table.{
  HlActionTransportResult, PendingResponse, HlWsPostTransport, find_pending, erase, emplace, write,
  failed, begin_post, on_message, on_disconnect, end_post,
}
use hl_maker_lighter_arb_cpp.Transport.HlPost.Waiting.{
  erase_absent, erase_head, find_pending_head, find_pending-erase, find_pending-erase_other, Avoids,
  Waiting, Waiting-write, Waiting-erase, answered-Avoids, found-Avoids, found_elsewhere,
  fail_all-Avoids, fail_all_found, Waiting-emplace,
}

-- A caller begins, a message arrives at a time, the connection is lost, or a caller stops waiting for
-- the request with an id, which is at an address.
pub data Event : Type 0 where
  post : String → Event
  message : String → ℕ → Event
  disconnect : String → Event
  stop_waiting : (id address : ℕ) → Event

-- A message that throws changes nothing.
unfoldable pub step : HlWsPostTransport → Event → HlWsPostTransport
step t (post payload) = begin_post t payload
step t (message msg now_ns) = or_else (on_message t msg now_ns) t
step t (disconnect reason) = on_disconnect t reason
step t (stop_waiting id a) =
    if (t.heap a).ready then t else record t { pending = erase id t.pending }

unfoldable pub steps : HlWsPostTransport → List Event → HlWsPostTransport
steps t [] = t
steps t (e ∷ es) = steps (step t e) es

abbrev pub Inv : HlWsPostTransport → Type 0
Inv t = Waiting t.heap t.next_address t.pending

-- What a step leaves: the table is as it should be, and an answered address keeps its answer.
abbrev Keeps : HlWsPostTransport → HlWsPostTransport → Type 0
Keeps t t' =
    Inv t'
    × ((a : ℕ) → a < t.next_address → (t.heap a).ready ≡ true → t'.heap a ≡ t.heap a)
    × (t.next_address ≤ t'.next_address)

begin_post-Keeps :
    (t : HlWsPostTransport) (payload : String) → Inv t → Keeps t (begin_post t payload)
unfolding begin_post
begin_post-Keeps t payload inv = (
  Waiting-emplace t.heap t.next_address t.next_id _ t.pending refl inv,
  (λ a lt done. ground arith),
  omega arith,
)

on_disconnect-Keeps :
    (t : HlWsPostTransport) (reason : String) → Inv t → Keeps t (on_disconnect t reason)
unfolding on_disconnect
on_disconnect-Keeps t reason inv = (
  tt,
  (λ a lt done.
      fail_all-Avoids reason t.pending t.heap a
        (answered-Avoids t.heap t.next_address a t.pending inv done)),
  omega arith,
)

-- The answer that a message brings.
abbrev answer : String → ℕ → PendingResponse
answer msg now_ns = record { ready = true; body = response_body msg; response_rx_ns = now_ns }

answered-Keeps :
    (t : HlWsPostTransport) (r : PendingResponse) (id a : ℕ)
    → Inv t
    → find_pending id t.pending ≡ some a
    → Keeps t (record t { pending = erase id t.pending; heap = write t.heap a r })
answered-Keeps t r id a inv found =
    let apart = found-Avoids t.heap t.next_address id a t.pending inv found in
    let rest = Waiting-erase t.heap t.next_address id t.pending inv in
    (
      Waiting-write t.heap t.next_address a r (erase id t.pending) apart rest,
      (λ b lt done.
          let elsewhere : (a == b) ≡ false =
            found_elsewhere id a b t.pending found
              (answered-Avoids t.heap t.next_address b t.pending inv done) in
          rw elsewhere),
      omega arith,
    )

-- A message throws, changes nothing, or answers an entry of the table.
on_message_cases :
    (t : HlWsPostTransport) (msg : String) (now_ns : ℕ)
    → (on_message t msg now_ns ≡ none)
      ⊎ (on_message t msg now_ns ≡ some t)
      ⊎ ((id : ℕ) × (a : ℕ) × (find_pending id t.pending ≡ some a)
          × (on_message t msg now_ns
              ≡ some (record t {
                pending = erase id t.pending;
                heap = write t.heap a (answer msg now_ns);
              })))
unfolding on_message
on_message_cases t msg now_ns = elim (Option-cases (parse_post_id msg)) [
  | inl throws ↦ inl (rw (throws, on_message))
  | inr (none, other) ↦ inr (inl (rw (other, on_message)))
  | inr (some id, read) ↦ elim (Option-cases (find_pending id t.pending)) [
    | inl absent ↦ inr (inl (rw (read, absent, on_message)))
    | inr (a, found) ↦ inr (inr (id, a, found, rw (read, found, on_message)))
  ]
]

same-Keeps : (t : HlWsPostTransport) → Inv t → Keeps t t
same-Keeps t inv = (inv, (λ a lt done. refl), omega arith)

step-Keeps : (t : HlWsPostTransport) (e : Event) → Inv t → Keeps t (step t e)
unfolding step
step-Keeps t (post payload) inv = begin_post-Keeps t payload inv
step-Keeps t (message msg now_ns) inv = elim (on_message_cases t msg now_ns) [
  | inl throws ↦ rw throws (same-Keeps t inv)
  | inr (inl same) ↦ rw same (same-Keeps t inv)
  | inr (inr (id, a, found, now)) ↦ rw now (answered-Keeps t (answer msg now_ns) id a inv found)
]
step-Keeps t (disconnect reason) inv = on_disconnect-Keeps t reason inv
step-Keeps t (stop_waiting id a) inv = elim (Bool-cases (t.heap a).ready) [
  | inl done ↦ rw done (same-Keeps t inv)
  | inr waiting ↦
      rw waiting
        (Waiting-erase t.heap t.next_address id t.pending inv, (λ b lt done. refl), omega arith)
]

-- In every run, the requests in the table are unanswered and each has an object of its own.
pub post_run-Inv : (t : HlWsPostTransport) (es : List Event) → Inv t → Inv (steps t es)
unfolding steps
post_run-Inv t [] inv = inv
post_run-Inv t (e ∷ es) inv = post_run-Inv (step t e) es (step-Keeps t e inv).0

-- A request is answered at most once: what its caller will read stays, whatever is posted, arrives, is
-- lost or is given up later.
pub answer_stays :
    (t : HlWsPostTransport) (es : List Event) (a : ℕ)
    → Inv t
    → a < t.next_address
    → (t.heap a).ready ≡ true
    → (steps t es).heap a ≡ t.heap a
unfolding steps
answer_stays t [] a inv lt done = refl
answer_stays t (e ∷ es) a inv lt done =
    let (inv', kept, grows) = step-Keeps t e inv in
    let same = kept a lt done in
    answer_stays (step t e) es a inv' (omega (arith, lt, grows)) (ap (λ r. r.ready) same ∙ done)
    ∙ same

on_message_found :
    (t : HlWsPostTransport) (msg : String) (now_ns id a : ℕ)
    → parse_post_id msg ≡ some (some id)
    → find_pending id t.pending ≡ some a
    → on_message t msg now_ns
      ≡ some (record t { pending = erase id t.pending; heap = write t.heap a (answer msg now_ns) })
unfolding on_message
on_message_found t msg now_ns id a read found = rw (read, found, on_message)

-- A response with the id of a request in the table answers that request alone, and takes it out of
-- the table.
response_answers :
    (t : HlWsPostTransport) (msg : String) (now_ns id a : ℕ)
    → parse_post_id msg ≡ some (some id)
    → find_pending id t.pending ≡ some a
    → (t' : HlWsPostTransport) × (on_message t msg now_ns ≡ some t')
      × (t'.heap a ≡ record { ready = true; body = response_body msg; response_rx_ns = now_ns })
      × ((b : ℕ) → b ≢ a → t'.heap b ≡ t.heap b)
      × (find_pending id t'.pending ≡ none)
      × ((k : ℕ) → k ≢ id → find_pending k t'.pending ≡ find_pending k t.pending)
response_answers t msg now_ns id a read found = (
  record t { pending = erase id t.pending; heap = write t.heap a (answer msg now_ns) },
  on_message_found t msg now_ns id a read found,
  ground arith,
  (λ b ne. ground arith),
  find_pending-erase id t.pending,
  (λ k ne. find_pending-erase_other id k t.pending ne),
)

-- When the connection is lost, every request in the table gets an error that names the reason, the
-- others keep what they have, and the table is empty.
disconnect_answers_all :
    (t : HlWsPostTransport) (reason : String)
    → Inv t
    → let t' = on_disconnect t reason in
      (t'.pending ≡ [])
      × ((id a : ℕ) → find_pending id t.pending ≡ some a → t'.heap a ≡ failed reason (t.heap a))
      × ((a : ℕ) → Avoids a t.pending → t'.heap a ≡ t.heap a)
unfolding on_disconnect
disconnect_answers_all t reason inv = (
  refl,
  (λ id a found. fail_all_found reason t.pending t.heap t.next_address id a inv found),
  (λ a apart. fail_all-Avoids reason t.pending t.heap a apart),
)

module _ (W : Type 0) ⦃d : Double W⦄ where
  -- A caller whose id is not in use reads the answer that a response with its id brings, and the table
  -- is as it was before the request.
  post_then_response :
      (t : HlWsPostTransport) (payload msg : String) (now_ns start_ns sent_ns unblock_ns : ℕ)
      → find_pending t.next_id t.pending ≡ none
      → parse_post_id msg ≡ some (some t.next_id)
      → (t' : HlWsPostTransport) × (on_message (begin_post t payload) msg now_ns ≡ some t')
        × (let (t'', result) =
              end_post {W = W} t' t.next_id t.next_address start_ns sent_ns unblock_ns in
            (t'' ≡ t') × (HlActionTransportResult.body {W = W} result ≡ response_body msg))
        × (t'.pending ≡ t.pending)
  unfolding end_post begin_post emplace
  post_then_response t payload msg now_ns start_ns sent_ns unblock_ns free read =
      let t' = begin_post t payload in
      let shape : t'.pending ≡ (t.next_id, t.next_address) ∷ t.pending = rw (free, emplace) in
      let found : find_pending t.next_id t'.pending ≡ some t.next_address =
        rw shape (find_pending_head t.next_id t.next_address t.pending) in
      let said = on_message_found t' msg now_ns t.next_id t.next_address read found in
      let kept : erase t.next_id t'.pending ≡ t.pending =
        rw shape
          (erase_head t.next_id t.next_address t.pending ∙ erase_absent t.next_id t.pending free) in
      (_, said, ground arith, kept)
