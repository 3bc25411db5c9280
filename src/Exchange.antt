-- ===== src/Exchange.antt =====
-- include/arb/exchange.hpp: the requests that the engines send to the two venues and the answers to
-- them. Latencies in an answer only reach log lines, and are left out.
use Prim.Native.String.{String}
use hl_maker_lighter_arb_cpp.Common.{ℕ, Bool}
use hl_maker_lighter_arb_cpp.Common.Int.{ℤ}
use hl_maker_lighter_arb_cpp.Types.{Bbo}

pub record HlLimitOrderRequest (W : Type 0) : Type 0 where
  pub coin : String
  pub is_buy : Bool
  pub price : W
  pub size : W
  pub post_only : Bool
  pub dry_run : Bool

pub record HlLimitOrderAck : Type 0 where
  pub ok : Bool
  pub message : String
  pub oid : String

pub record HlIocOrderRequest (W : Type 0) : Type 0 where
  pub coin : String
  pub is_buy : Bool
  pub price : W
  pub size : W
  pub dry_run : Bool

pub record HlIocOrderAck (W : Type 0) : Type 0 where
  pub ok : Bool
  pub message : String
  pub filled_size : W
  pub avg_fill_price : W

pub record HlCancelAck : Type 0 where
  pub ok : Bool
  pub message : String
  pub oid : String

pub record HlReduceAck (W : Type 0) : Type 0 where
  pub ok : Bool
  pub message : String
  pub filled_size : W
  pub avg_fill_price : W

pub record LighterIocRequest (W : Type 0) : Type 0 where
  pub is_ask : Bool
  pub price : W
  pub size : W
  pub signal_price : W
  pub dry_run : Bool

pub record LighterIocAck (W : Type 0) : Type 0 where
  pub ok : Bool
  pub fill_confirmed : Bool
  pub message : String
  pub tx_hash : String
  pub confirmed_size : W
  pub fill_price : W
  pub fee : W

pub record LighterLimitOrderRequest (W : Type 0) : Type 0 where
  pub is_ask : Bool
  pub price : W
  pub size : W
  pub post_only : Bool
  pub dry_run : Bool

pub record LighterLimitOrderAck : Type 0 where
  pub ok : Bool
  pub resting_confirmed : Bool
  pub message : String
  pub tx_hash : String
  pub client_order_index : ℤ
  pub order_index : ℤ

pub record LighterCancelAck : Type 0 where
  pub ok : Bool
  pub message : String
  pub tx_hash : String
  pub order_index : ℤ

pub record LighterRestingOrder : Type 0 where
  pub client_order_index : ℤ
  pub order_index : ℤ
  pub resting : Bool

-- What the venues and the clocks answer during one run of a handler, which asks each of them at most
-- once: the virtual methods of HyperliquidExchange and LighterExchange, the steady clock and the
-- wall clock. Any behaviour of the venues is such a record for each run.
pub record Answers (W : Type 0) : Type 0 where
  pub steady_now_ms : ℤ
  pub epoch_now_ms : ℕ
  pub hl_get_bbo : String → Bbo W
  pub hl_place_limit_order : HlLimitOrderRequest W → HlLimitOrderAck
  pub hl_place_ioc_order : HlIocOrderRequest W → HlIocOrderAck W
  pub hl_cancel_order : String → String → Bool → HlCancelAck
  pub hl_reduce_position : String → Bool → W → Bool → HlReduceAck W
  pub lighter_get_bbo : ℤ → Bbo W
  pub lighter_place_limit_order : LighterLimitOrderRequest W → LighterLimitOrderAck
  pub lighter_cancel_order : ℤ → Bool → LighterCancelAck
  pub lighter_place_ioc_order : LighterIocRequest W → LighterIocAck W

-- A call that asks a venue to act.
pub data Sent (W : Type 0) : Type 0 where
  hl_limit : HlLimitOrderRequest W → Sent W
  hl_ioc : HlIocOrderRequest W → Sent W
  hl_cancel : String → String → Bool → Sent W
  hl_reduce : String → Bool → W → Bool → Sent W
  lighter_limit : LighterLimitOrderRequest W → Sent W
  lighter_cancel : ℤ → Bool → Sent W
  lighter_ioc : LighterIocRequest W → Sent W
