-- ===== src/NativeLighter/Moved.antt =====
-- What a confirmed fill rests on: the position after the order, and the answer made from it.
use Prim.Native.String.{String}
use hl_maker_lighter_arb_cpp.Common.{
  ℕ, ◌+◌, Bool, ltb, if◌then◌else◌, ◌≡◌, sym, ap, ◌∙◌, true, false, ◌⊎◌, inl, inr, Option, none,
  some, Option-cases, Bool-cases, arith,
}
use mathlib.Core.Option.{some-injective}
use hl_maker_lighter_arb_cpp.Common.Int.{ℤ, pos}
use hl_maker_lighter_arb_cpp.Double.{Double, lit, ◌-ᵈ◌, ◌<ᵈ◌}
use hl_maker_lighter_arb_cpp.Types.{LighterPositionSnapshot}
use hl_maker_lighter_arb_cpp.Exchange.{LighterIocRequest, LighterIocAck}
use hl_maker_lighter_arb_cpp.Scan.{◌>>=◌, >>=-eq-some}
use hl_maker_lighter_arb_cpp.Convert.{Conversions}
use hl_maker_lighter_arb_cpp.NativeLighter.Client.{
  LighterClient, SignedTxResponse, World, tx_response_ok, query_position_snapshot,
}
use hl_maker_lighter_arb_cpp.NativeLighter.Ioc.{
  Fill, confirmed_tx_hash, wait_ms, position_after, fill_from, confirm_fill,
}

queried_some :
    {A : Type 0} (q : Option A) (test : A → Bool) (a : A)
    → (q >>= (λ b. some (if test b then some b else none))) ≡ some (some a)
    → q ≡ some a
queried_some none test a e = cc
queried_some (some b) test a e = elim (Bool-cases (test b)) [
  | inl keeps ↦ some-injective _ _ (rw keeps at e)
  | inr drops ↦ cc (rw drops at e)
]

module _ {W : Type 0} ⦃d : Double W⦄ ⦃c : Conversions W⦄ where
  -- The position that the waiter reports for the position before as its baseline, or else the one that
  -- the account's query answers after the order.
  abbrev pub ReportedAfter :
      LighterClient W → World W → (before after : LighterPositionSnapshot W) → Type 0
  ReportedAfter t w before after =
      ((wait : W → ℤ → Option (LighterPositionSnapshot W)) × (ms : ℤ) × (w.position_waiter
          ≡ some wait)
        × (wait before.size ms ≡ some after))
      ⊎ (query_position_snapshot t.config w.account_after ≡ some after)

  position_after-ReportedAfter :
      (t : LighterClient W) (w : World W) (before after : LighterPositionSnapshot W) (ms : ℕ)
      → position_after t w before ms ≡ some (some after)
      → ReportedAfter t w before after
  unfolding position_after
  position_after-ReportedAfter t w before after ms e = elim (Option-cases w.position_waiter) [
    | inl unset ↦ inr (queried_some _ _ after (rw (unset, position_after) at e))
    | inr (wait, set) ↦
        let limit : ℤ = pos (if ltb (ms + 1000) 3000 then ms + 1000 else 3000) in
        elim (Option-cases (wait before.size limit)) [
          | inl nothing ↦ inr (queried_some _ _ after (rw (set, nothing, position_after) at e))
          | inr (seen, reported) ↦
              let same =
                some-injective _ _ (some-injective _ _ (rw (set, reported, position_after) at e)) in
              inl (wait, limit, set, reported ∙ ap some same)
        ]
  ]

  -- The answer is made from a position after the order that differs from the one before by more than
  -- 0.001, and its size is that difference.
  abbrev pub MovedBy :
      LighterClient W → World W → LighterPositionSnapshot W → LighterIocAck W → Type 0
  MovedBy t w before ack =
      (after : LighterPositionSnapshot W) × ReportedAfter t w before after
      × (ack.confirmed_size ≡ d.fabs (after.size -ᵈ before.size))
      × (lit 1 3 <ᵈ d.fabs (after.size -ᵈ before.size) ≡ true)

  abbrev fill_of :
      LighterIocRequest W
      → (before : LighterPositionSnapshot W) → Option (LighterPositionSnapshot W)
      → Fill W
  fill_of request before after_opt = elim after_opt [
    | none ↦ record { fill_confirmed = false; confirmed_size = lit 0 0; fill_price = lit 0 0 }
    | some after ↦ fill_from request before after
  ]

  abbrev answer_of : String → String → Fill W → LighterIocAck W
  answer_of body tx_hash fill = record {
    ok = true;
    fill_confirmed = fill.fill_confirmed;
    message = body;
    tx_hash = tx_hash;
    confirmed_size = fill.confirmed_size;
    fill_price = fill.fill_price;
    fee = lit 0 0;
  }

  answer_of-MovedBy :
      (t : LighterClient W) (w : World W) (request : LighterIocRequest W)
      (before : LighterPositionSnapshot W) (body tx_hash : String) (ms : ℕ)
      (after_opt : Option (LighterPositionSnapshot W)) {ack : LighterIocAck W}
      → position_after t w before ms ≡ some after_opt
      → answer_of body tx_hash (fill_of request before after_opt) ≡ ack
      → ack.fill_confirmed ≡ true
      → (ack.ok ≡ true) × MovedBy t w before ack
  unfolding fill_from
  answer_of-MovedBy t w request before body tx_hash ms none found same sure =
      cc (ap (λ a. a.fill_confirmed) same ∙ sure)
  answer_of-MovedBy t w request before body tx_hash ms (some after) found same sure = (
    ap (λ a. a.ok) (sym same),
    (
      after,
      position_after-ReportedAfter t w before after ms found,
      ap (λ a. a.confirmed_size) (sym same),
      ap (λ a. a.fill_confirmed) same ∙ sure,
    ),
  )

  pub confirm_fill-MovedBy :
      (t : LighterClient W) (w : World W) (request : LighterIocRequest W)
      (before : LighterPositionSnapshot W) (tx : SignedTxResponse) (body : String)
      {ack : LighterIocAck W}
      → confirm_fill t w request before tx body ≡ some ack
      → ack.fill_confirmed ≡ true
      → (tx_response_ok body ≡ true) × (ack.ok ≡ true) × MovedBy t w before ack
  unfolding confirm_fill
  confirm_fill-MovedBy t w request before tx body {ack} answered sure =
      elim (Bool-cases (tx_response_ok body)) [
        | inl good ↦
            let run = rw (good, confirm_fill) at answered in
            let (tx_hash, hashed, timed) = >>=-eq-some (confirmed_tx_hash body tx) _ run in
            let (ms, time, moved) = >>=-eq-some (wait_ms body w.after_ms) _ timed in
            let (after_opt, found, made) = >>=-eq-some (position_after t w before ms) _ moved in
            let (fine, by) =
              answer_of-MovedBy t w request before body tx_hash ms after_opt found
                (some-injective _ _ made) sure in
            (good, fine, by)
        | inr bad ↦ absurd (ground arith)
      ]
