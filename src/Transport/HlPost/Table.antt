-- ===== src/Transport/HlPost/Table.antt =====
-- The requests in flight: `HlWsPostTransport`, its `post_action` in the two parts between which it
-- waits, `on_message` and `on_disconnect`. The heap holds the `PendingResponse` objects by address, and
-- `pending` maps an id to the address that the `shared_ptr` holds. Each function is one critical section.
use Prim.Native.String.{String, ◌++◌}
use hl_maker_lighter_arb_cpp.Common.{
  ℕ, suc, ◌+◌, ◌-◌, ◌%◌, ◌^◌, Bool, true, false, Option, none, some, List, [], ◌∷◌, ltb, ◌==◌,
  if◌then◌else◌,
}
use hl_maker_lighter_arb_cpp.Common.Int.{pos}
use hl_maker_lighter_arb_cpp.Common.Text.{to_string}
use hl_maker_lighter_arb_cpp.Double.{Double, lit, ◌/ᵈ◌}
use hl_maker_lighter_arb_cpp.Transport.{make_error_body}
use hl_maker_lighter_arb_cpp.Transport.HlPost.Parse.{parse_post_id, response_body}

pub record PendingResponse : Type 0 where
  pub ready : Bool
  pub body : String
  pub response_rx_ns : ℕ

pub record HlWsPostTransport : Type 0 where
  pub next_id : ℕ
  pub pending : List (ℕ × ℕ)
  pub heap : ℕ → PendingResponse
  pub next_address : ℕ
  pub sent : List String

pub record HlActionTransportResult (W : Type 0) : Type 0 where
  pub body : String
  pub send_call_latency_ms : W
  pub send_to_response_rx_latency_ms : W
  pub response_rx_to_unblock_latency_ms : W

unfoldable pub find_pending : ℕ → List (ℕ × ℕ) → Option ℕ
find_pending id [] = none
find_pending id ((k, a) ∷ rest) = if k == id then some a else find_pending id rest

unfoldable pub erase : ℕ → List (ℕ × ℕ) → List (ℕ × ℕ)
erase id [] = []
erase id ((k, a) ∷ rest) = let others = erase id rest in if k == id then others else (k, a) ∷ others

-- `emplace` leaves an entry that is there.
unfoldable pub emplace : ℕ → ℕ → List (ℕ × ℕ) → List (ℕ × ℕ)
emplace id a pending = elim (find_pending id pending) [
  | none ↦ (id, a) ∷ pending
  | some b ↦ pending
]

abbrev pub write : (ℕ → PendingResponse) → ℕ → PendingResponse → ℕ → PendingResponse
write heap a r b = if a == b then r else heap b

-- The id comes from a counter of 64 bits.
unfoldable pub begin_post : HlWsPostTransport → String → HlWsPostTransport
begin_post t payload_json = record {
  next_id = (t.next_id + 1) % 2 ^ 64;
  pending = emplace t.next_id t.next_address t.pending;
  heap = write t.heap t.next_address (record { ready = false; body = ""; response_rx_ns = 0 });
  next_address = suc t.next_address;
  sent =
      ("{\"method\":\"post\",\"id\":"
        ++ (to_string (pos t.next_id)
            ++ (",\"request\":{\"type\":\"action\",\"payload\":" ++ (payload_json ++ "}}"))))
      ∷ t.sent;
}

-- none: the id throws.
unfoldable pub on_message : HlWsPostTransport → String → ℕ → Option HlWsPostTransport
on_message t msg now_ns = elim (parse_post_id msg) [
  | none ↦ none
  | some none ↦ some t
  | some (some id) ↦ elim (find_pending id t.pending) [
    | none ↦ some t
    | some a ↦ some (record t {
      pending = erase id t.pending;
      heap =
          write t.heap a
            (record { ready = true; body = response_body msg; response_rx_ns = now_ns });
    })
  ]
]

abbrev pub failed : String → PendingResponse → PendingResponse
failed reason p = record p { ready = true; body = make_error_body ("ws_disconnect_" ++ reason) }

unfoldable pub fail_all : String → List (ℕ × ℕ) → (ℕ → PendingResponse) → ℕ → PendingResponse
fail_all reason [] heap = heap
fail_all reason ((id, a) ∷ rest) heap = fail_all reason rest (write heap a (failed reason (heap a)))

unfoldable pub on_disconnect : HlWsPostTransport → String → HlWsPostTransport
on_disconnect t reason = record t { heap = fail_all reason t.pending t.heap; pending = [] }

module _ {W : Type 0} ⦃d : Double W⦄ where
  -- A difference of clock readings in milliseconds.
  abbrev pub ms_between : ℕ → ℕ → W
  ms_between a b = lit (b - a) 0 /ᵈ lit 1000000 0

  -- The wait is over: an answer is there, or the time is up.
  unfoldable pub end_post :
      HlWsPostTransport
      → (id address send_start_ns send_end_ns unblock_ns : ℕ)
      → HlWsPostTransport × HlActionTransportResult W
  end_post t id a send_start_ns send_end_ns unblock_ns =
      let p = t.heap a in
      if p.ready
      then (
        t,
        record {
          body = p.body;
          send_call_latency_ms = ms_between send_start_ns send_end_ns;
          send_to_response_rx_latency_ms =
              if ltb send_end_ns p.response_rx_ns
              then ms_between send_end_ns p.response_rx_ns
              else lit 0 0;
          response_rx_to_unblock_latency_ms =
              if ltb p.response_rx_ns unblock_ns
              then ms_between p.response_rx_ns unblock_ns
              else lit 0 0;
        },
      )
      else (
        record t { pending = erase id t.pending },
        record {
          body = make_error_body "ws_post_timeout";
          send_call_latency_ms = ms_between send_start_ns send_end_ns;
          send_to_response_rx_latency_ms = lit 0 0;
          response_rx_to_unblock_latency_ms = lit 0 0;
        },
      )
