-- ===== src/Engine/HlMaker.antt =====
-- class MakerHedgeEngine (include/arb/engine.hpp, src/engine.cpp): a maker order on Hyperliquid, hedged
-- on Lighter.
pub mod State
pub mod Execute
pub mod MarketData
pub mod TradeEvent
pub mod Fill
pub mod Trace
pub mod Limits
pub mod Coverage
pub mod Stuck
pub mod Ready
pub mod Late
pub mod Invariant
pub mod Rate
pub mod Speculative
pub mod Deferred
