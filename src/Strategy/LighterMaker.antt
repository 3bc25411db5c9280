-- ===== src/Strategy/LighterMaker.antt =====
-- class LighterMakerHlHedger (include/arb/strategy.hpp, src/strategy.cpp): rest a maker order on
-- Lighter, hedge its fill on Hyperliquid. A method returns the new object and its result.
pub mod Defs
pub mod Trace
pub mod Invariant
pub mod Orders
pub mod Hedging
pub mod Rearm
