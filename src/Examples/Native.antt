-- ===== src/Examples/Native.antt =====
-- The client of Lighter at concrete inputs.
use Prim.Native.String.{String}
use hl_maker_lighter_arb_cpp.Common.{refl, true, false, none, some, [], ◌∷◌, arith}
use hl_maker_lighter_arb_cpp.Common.Int.{pos}
use hl_maker_lighter_arb_cpp.Double.Fixed.{Fixed, fixed_double}
use hl_maker_lighter_arb_cpp.Types.{LighterPositionSnapshot}
use hl_maker_lighter_arb_cpp.Exchange.{
  LighterLimitOrderRequest, LighterLimitOrderAck, LighterIocRequest, LighterIocAck,
}
use hl_maker_lighter_arb_cpp.Convert.Fixed.{fixed_conversions}
use hl_maker_lighter_arb_cpp.NativeLighter.Client.{LighterClient, SignedTxResponse, World}
use hl_maker_lighter_arb_cpp.NativeLighter.Nonce.{
  Nonces, outside, adding, put, here, onward, load, add, Consecutive, nonces-Consecutive,
}
use hl_maker_lighter_arb_cpp.Examples.Data.{amount, nought}

abbrev pub client : LighterClient Fixed
client = record {
  config = record { market_index = pos 24; account_index = pos 5; api_key_index = pos 2 };
  client_ready = true;
  price_decimals = pos 2;
  size_decimals = pos 1;
  min_base_amount = amount 5 1;
  nonce_cache = 41;
}

abbrev signed : SignedTxResponse
signed = record { tx_type = 14; tx_info = "{}"; tx_hash = "0xab"; err = "" }

abbrev pub flat : LighterPositionSnapshot Fixed
flat = record { size = nought; avg_entry_price = nought; position_value = nought }

abbrev pub held : LighterPositionSnapshot Fixed
held = record { size = amount 2 0; avg_entry_price = amount 100 0; position_value = amount 200 0 }

-- A venue that answers every transaction with a text, and feeds that show what is asked for.
abbrev pub world : String → World Fixed
world answer = record {
  create_client_err = "";
  details = none;
  nonce_body = none;
  account_before = some "{}";
  account_after = some "{}";
  now_ms = 1000;
  after_ms = 1010;
  sign_create_order = λ _. signed;
  sign_cancel_order = λ _. signed;
  send_signed_tx = λ _ _. answer;
  order_waiter =
      some (λ k _. some (record { client_order_index = k; order_index = pos 77; resting = true }));
  cancel_waiter = some (λ _ _. true);
  position_waiter = some (λ _ _. some held);
}

abbrev limit : LighterLimitOrderRequest Fixed
limit = record {
  is_ask = true;
  price = amount 100 0;
  size = amount 2 0;
  post_only = true;
  dry_run = false;
}

abbrev pub ioc : LighterIocRequest Fixed
ioc = record {
  is_ask = true;
  price = amount 100 0;
  size = amount 2 0;
  signal_price = amount 100 0;
  dry_run = false;
}

abbrev placed : LighterLimitOrderAck
placed = record {
  ok = true;
  resting_confirmed = true;
  message = "{\"code\":200}";
  tx_hash = "0xab";
  client_order_index = pos 1000;
  order_index = pos 77;
}

abbrev filled : LighterIocAck Fixed
filled = record {
  ok = true;
  fill_confirmed = true;
  message = "{\"code\":200}";
  tx_hash = "0xab";
  confirmed_size = amount 2 0;
  fill_price = amount 100 0;
  fee = nought;
}

abbrev n0 : Nonces
n0 = record { nonce_cache = 7; places = λ _. outside; issued = [] }

abbrev n1 : Nonces
n1 = record n0 { places = put n0.places 0 adding }

abbrev n2 : Nonces
n2 = record { nonce_cache = 8; places = put n1.places 0 outside; issued = 7 ∷ [] }

nonces-Consecutive_example : Consecutive 8 (7 ∷ [])
nonces-Consecutive_example =
    nonces-Consecutive n0 n2 refl (λ t. refl) (omega arith)
      (onward n0 n1 n2 (onward n0 n0 n1 (here n0) (load n0 0 refl)) (add n1 0 refl)) (omega arith)
