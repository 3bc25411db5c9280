-- ===== src/NativeHyperliquid.antt =====
-- src/native_trading.cpp: `NativeHyperliquidTrading`, the client that signs and posts Hyperliquid's actions.
pub mod Client
pub mod Action
pub mod Sign
pub mod Orders
pub mod Preimage
pub mod Signed
pub mod Answers
pub mod Fixed
