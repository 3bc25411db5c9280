-- ===== src/NativeLighter/Client.antt =====
-- The client's state, its set-up, its nonces, and what it makes of a response. The signer library, the
-- HTTP client, the waiters and the clock are what a call finds: an HTTP body of none is an exception.
use Prim.Native.String.{String, len, ◌++◌}
use hl_maker_lighter_arb_cpp.Common.{
  ℕ, ◌+◌, ◌-◌, ◌%◌, ◌^◌, Bool, true, ◌||◌, Option, none, some, List, ◌==◌, if◌then◌else◌,
}
use hl_maker_lighter_arb_cpp.Common.Int.{ℤ, pos, pos_part, neg_part}
use hl_maker_lighter_arb_cpp.Common.Text.{to_string}
use hl_maker_lighter_arb_cpp.Double.{Double, lit, ◌*ᵈ◌, fmax}
use hl_maker_lighter_arb_cpp.Types.{LighterPositionSnapshot}
use hl_maker_lighter_arb_cpp.Exchange.{LighterRestingOrder}
use hl_maker_lighter_arb_cpp.Scan.{◌>>=◌, contains, find_from, substr, digits_group, quoted_group}
use hl_maker_lighter_arb_cpp.Convert.{Conversions, read_position, first_match_as_double}

pub record LighterConfig : Type 0 where
  pub market_index : ℤ
  pub account_index : ℤ
  pub api_key_index : ℤ

pub record LighterClient (W : Type 0) : Type 0 where
  pub config : LighterConfig
  pub client_ready : Bool
  pub price_decimals : ℤ
  pub size_decimals : ℤ
  pub min_base_amount : W
  pub nonce_cache : ℕ

-- The arguments of `SignCreateOrder` that the client does not fix at 0, and those of `SignCancelOrder`.
pub record CreateOrder : Type 0 where
  pub market_index : ℤ
  pub client_order_index : ℤ
  pub base_amount : ℤ
  pub price : ℤ
  pub is_ask : Bool
  pub time_in_force : ℕ
  pub nonce : ℕ
  pub api_key_index : ℤ
  pub account_index : ℤ

pub record CancelOrder : Type 0 where
  pub market_index : ℤ
  pub order_index : ℤ
  pub nonce : ℕ
  pub api_key_index : ℤ
  pub account_index : ℤ

pub record SignedTxResponse : Type 0 where
  pub tx_type : ℕ
  pub tx_info : String
  pub tx_hash : String
  pub err : String

-- What one call finds outside: the error of `CreateClient`, the bodies of the market details, of the nonce
-- query and of the two account queries, the wall clock when the order is made and after it is sent, the
-- signer, the channel, and the waiters that are set.
pub record World (W : Type 0) : Type 0 where
  pub create_client_err : String
  pub details : Option String
  pub nonce_body : Option String
  pub account_before : Option String
  pub account_after : Option String
  pub now_ms : ℕ
  pub after_ms : ℕ
  pub sign_create_order : CreateOrder → SignedTxResponse
  pub sign_cancel_order : CancelOrder → SignedTxResponse
  pub send_signed_tx : ℕ → String → String
  pub order_waiter : Option (ℤ → ℤ → Option LighterRestingOrder)
  pub cancel_waiter : Option (ℤ → ℤ → Bool)
  pub position_waiter : Option (W → ℤ → Option (LighterPositionSnapshot W))

-- A call's outcome: the client, what was sent, and the answer, where none is an exception.
pub record Call (W : Type 0) (A : Type 0) : Type 0 where
  pub client : LighterClient W
  pub sent : List (ℕ × String)
  pub answer : Option A

unfoldable pub tx_response_ok : String → Bool
tx_response_ok response_body =
    contains response_body "\"code\":200" || contains response_body "\"tx_hash\""

module _ {W : Type 0} ⦃d : Double W⦄ ⦃c : Conversions W⦄ where
  unfoldable pub scaled_size : LighterClient W → W → ℤ
  scaled_size t size = c.llround (fmax size t.min_base_amount *ᵈ c.pow_10 t.size_decimals)

  -- A cast to `uint32_t`, of which the signer's `int` keeps the bits.
  unfoldable pub scaled_price : LighterClient W → W → ℤ
  scaled_price t price =
      let n = c.llround (price *ᵈ c.pow_10 t.price_decimals) in
      pos ((pos_part n + (2 ^ 32 - neg_part n % 2 ^ 32)) % 2 ^ 32)

  unfoldable pub fetch_remote_next_nonce : World W → Option ℕ
  fetch_remote_next_nonce w = w.nonce_body >>= (λ body.
      first_match_as_double body "\"nonce\":" digits_group >>= (λ n. some (pos_part (c.to_int n))))

  -- `ensure_client`; it throws where the answer is none, and then the client is not ready.
  unfoldable pub ensure_client : LighterClient W → World W → Option (LighterClient W)
  ensure_client t w =
      if t.client_ready
      then some t
      else if 0 == len w.create_client_err
      then w.details >>= (λ body.
        first_match_as_double body "\"price_decimals\":" digits_group >>= (λ price_decimals.
          first_match_as_double body "\"size_decimals\":" digits_group >>= (λ size_decimals.
            first_match_as_double body "\"min_base_amount\":\"" quoted_group >>= (λ min_base_amount.
              fetch_remote_next_nonce w >>= (λ nonce. some (record t {
                client_ready = true;
                price_decimals = c.to_int price_decimals;
                size_decimals = c.to_int size_decimals;
                min_base_amount = min_base_amount;
                nonce_cache = nonce;
              }))))))
      else none

  -- `next_nonce` with no other thread at work: the counter, and the nonce.
  unfoldable pub next_nonce : LighterClient W → World W → Option (LighterClient W × ℕ)
  next_nonce t w =
      if t.nonce_cache == 0
      then fetch_remote_next_nonce w
        >>= (λ remote. some (record t { nonce_cache = (remote + 1) % 2 ^ 64 }, remote))
      else some (record t { nonce_cache = (t.nonce_cache + 1) % 2 ^ 64 }, t.nonce_cache)

  -- A market that the account does not list has no position.
  unfoldable pub query_position_snapshot :
      LighterConfig → Option String → Option (LighterPositionSnapshot W)
  query_position_snapshot config response = response >>= (λ body.
      elim (find_from body ("\"market_id\":" ++ to_string config.market_index) 0) [
        | none ↦
            some (record { size = lit 0 0; avg_entry_price = lit 0 0; position_value = lit 0 0 })
        | some market_pos ↦ read_position (substr body market_pos 600)
      ])
