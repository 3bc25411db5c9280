-- ===== src/Strategy/HlMaker.antt =====
-- class HlMakerLighterHedger (include/arb/strategy.hpp, src/strategy.cpp): rest a maker order on
-- Hyperliquid, hedge its fill on Lighter. A method returns the new object and its result.
pub mod Defs
pub mod Trace
pub mod Invariant
pub mod Orders
pub mod Hedging
pub mod Rearm
