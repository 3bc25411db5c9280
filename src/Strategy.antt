-- ===== src/Strategy.antt =====
-- include/arb/strategy.hpp, src/strategy.cpp: the two hedging state machines and their prices.
pub mod Pricing
pub mod HlMaker
pub mod LighterMaker
