-- ===== src/NativeLighter.antt =====
-- src/native_trading.cpp, `NativeLighterTrading`: the client that signs, sends and confirms orders on
-- Lighter.
pub mod Client
pub mod Limit
pub mod Ioc
pub mod Moved
pub mod Confirmed
pub mod Cancelled
pub mod Nonce
pub mod Codes
