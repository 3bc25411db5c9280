-- ===== src/NativeHyperliquid/Answers.antt =====
-- What the answers of the client rest on.
use Prim.Native.String.{String, ◌++◌}
use mathlib.Core.Option.{some-injective}
use hl_maker_lighter_arb_cpp.Common.{
  ℕ, ◌≡◌, ◌∙◌, refl, sym, ap, true, false, Option, none, some, List, [], ◌∷◌, if-false,
}
use hl_maker_lighter_arb_cpp.Double.{Double}
use hl_maker_lighter_arb_cpp.Exchange.{HlLimitOrderRequest, HlLimitOrderAck}
use hl_maker_lighter_arb_cpp.Convert.{Conversions}
use hl_maker_lighter_arb_cpp.Scan.{>>=-eq-some}
use hl_maker_lighter_arb_cpp.Scan.Bounds.{contains-append}
use hl_maker_lighter_arb_cpp.NativeHyperliquid.Client.{
  HyperliquidConfig, World, Formats, ensure_meta, meta_for_coin,
}
use hl_maker_lighter_arb_cpp.NativeHyperliquid.Action.{cancel_action_json, post_body}
use hl_maker_lighter_arb_cpp.NativeHyperliquid.Sign.{sign_l1_action}
use hl_maker_lighter_arb_cpp.NativeHyperliquid.Signed.{answered-posted}
use hl_maker_lighter_arb_cpp.NativeHyperliquid.Orders.{
  Client, Call, answered, post_exchange_action, post_order, place_limit_order, cancel_order,
  read_limit_ack, read_cancel_ack, limit_ack, placed_oid, is_ok,
}

-- An answer is read from what the channel answered to the one request that was posted.
abbrev pub Answered : {A : Type 0} → World → Call A → (String → Option A) → Type 0
Answered w call read =
    (body : String) × (transport : String → String) × (call.posted ≡ body ∷ [])
    × (w.action_transport ≡ some transport)
    × (call.answer ≡ read (transport body))

-- What is posted goes through the channel, and the response is the channel's.
posted-transport :
    (config : HyperliquidConfig) (w : World) (action_json : String) (hash : Option (List ℕ))
    (body response : String)
    → post_exchange_action config w action_json hash ≡ some (body, response)
    → (transport : String → String) × (w.action_transport ≡ some transport)
      × (response ≡ transport body)
unfolding post_exchange_action
posted-transport config w action_json hash body response e =
    let (h, hashed, rest) = >>=-eq-some hash _ e in
    let (signature, signs, posts) = >>=-eq-some (sign_l1_action config w h) _ rest in
    let (transport, set, sent) = >>=-eq-some w.action_transport _ posts in
    let same = some-injective _ _ sent in
    (
      transport,
      set,
      ap (λ (p : String × String). p.1) (sym same)
          ∙ ap (λ (p : String × String). transport p.0) same,
    )

answered-some :
    {A : Type 0} (t : Client) (w : World) (read : String → Option A) (o : Option (String × String))
    (ack : A)
    → ((body response : String)
        → o ≡ some (body, response)
        → (transport : String → String) × (w.action_transport ≡ some transport)
          × (response ≡ transport body))
    → (answered t read o).answer ≡ some ack
    → Answered w (answered t read o) read
unfolding answered
answered-some t w read none ack channel e = cc
answered-some t w read (some (body, response)) ack channel e =
    let (transport, set, same) = channel body response refl in
    (body, transport, refl, set, ap read same)

oid_of_ok :
    (body : String) (o : Option String)
    → (limit_ack body o).ok ≡ true
    → o ≡ some (limit_ack body o).oid
oid_of_ok body none e = cc
oid_of_ok body (some oid) e = refl

module _ {W : Type 0} ⦃d : Double W⦄ ⦃c : Conversions W⦄ ⦃f : Formats W⦄ where
  -- A live order that the client reports as placed was posted, once, and what the channel answered to the
  -- posted request names the id of an order that rests or was filled: the id that the client reports.
  pub placed_oid-place_limit_order :
      (t : Client) (w : World) (request : HlLimitOrderRequest W) (ack : HlLimitOrderAck)
      → request.dry_run ≡ false
      → (place_limit_order t w request).answer ≡ some ack
      → ack.ok ≡ true
      → (body : String) × (transport : String → String) × ((place_limit_order t w request).posted
          ≡ body ∷ [])
        × (w.action_transport ≡ some transport)
        × (placed_oid (transport body) ≡ some ack.oid)
  unfolding place_limit_order post_order read_limit_ack
  placed_oid-place_limit_order t w request ack live answer ok =
      let call = post_order read_limit_ack t w request false false in
      let opened = if-false request.dry_run dry_call call live in
      let answer' = ap (λ (k : Call HlLimitOrderAck). k.answer) (sym opened) ∙ answer in
      let (body, transport, posted, set, read) =
        answered-some _ w read_limit_ack _ ack
          (λ body response e.
            let (meta, found, posts) =
              >>=-eq-some (meta_for_coin (ensure_meta t.meta w) request.coin) _ e in
            posted-transport t.config w _ _ body response posts)
          answer' in
      let same : limit_ack (transport body) (placed_oid (transport body)) ≡ ack =
        some-injective _ _ (sym read ∙ answer') in
      (
        body,
        transport,
        ap (λ (k : Call HlLimitOrderAck). k.posted) opened ∙ posted,
        set,
        oid_of_ok (transport body) (placed_oid (transport body))
              (ap (λ (k : HlLimitOrderAck). k.ok) same ∙ ok)
            ∙ ap (λ (k : HlLimitOrderAck). some k.oid) same,
      )
    where
      dry_call : Call HlLimitOrderAck
      dry_call = record {
        client = t;
        posted = [];
        answer = some (record { ok = true; message = "dry-run"; oid = "dry_oid" });
      }

accepted :
    (oid front rest : String)
    → read_cancel_ack oid (front ++ ("\"status\":\"ok\"" ++ rest))
      ≡ some (record { ok = true; message = front ++ ("\"status\":\"ok\"" ++ rest); oid = oid })
unfolding read_cancel_ack is_ok
accepted oid front rest = rw (contains-append front "\"status\":\"ok\"" rest) refl

response-posted :
    (t : Client) (w : World) (action_json : String) (hash : Option (List ℕ))
    (body response answer : String)
    → w.action_transport ≡ some (λ _. answer)
    → post_exchange_action t.config w action_json hash ≡ some (body, response)
    → response ≡ answer
unfolding post_exchange_action
response-posted t w action_json hash body response answer channel e =
    let (h, hashed, rest) = >>=-eq-some hash _ e in
    let (signature, signs, posts) = >>=-eq-some (sign_l1_action t.config w h) _ rest in
    let (transport, is, sent) = >>=-eq-some w.action_transport _ posts in
    let same : transport ≡ (λ _. answer) = some-injective _ _ (sym is ∙ channel) in
    ap (λ (p : String × String). p.1) (sym (some-injective _ _ sent))
    ∙ ap (λ (g : String → String). g (post_body t.config action_json w.now_ms signature)) same

-- The channel answers whatever is posted with a response that has `"status":"ok"` in it, as the venue does
-- also where it refuses the cancel of this order. Then a cancel that is posted counts as accepted.
refused_cancel_accepted :
    (t : Client) (w : World) (coin oid body front rest : String)
    → w.action_transport ≡ some (λ _. front ++ ("\"status\":\"ok\"" ++ rest))
    → (cancel_order t w coin oid false).posted ≡ body ∷ []
    → (cancel_order t w coin oid false).answer
      ≡ some (record { ok = true; message = front ++ ("\"status\":\"ok\"" ++ rest); oid = oid })
unfolding cancel_order
refused_cancel_accepted t w coin oid body front rest channel posted =
    let (response, done, answer) =
      answered-posted (record t { meta = (ensure_meta t.meta w).meta }) (read_cancel_ack oid) _ body
        posted in
    let (meta, found, posts) = >>=-eq-some (meta_for_coin (ensure_meta t.meta w) coin) _ done in
    answer
    ∙ ap (read_cancel_ack oid)
        (response-posted t w (cancel_action_json meta oid) _ body response _ channel posts)
    ∙ accepted oid front rest
