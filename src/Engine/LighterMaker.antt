-- ===== src/Engine/LighterMaker.antt =====
-- class LighterMakerTakerEngine (include/arb/engine.hpp, src/engine.cpp): a maker order on Lighter,
-- hedged on Hyperliquid.
pub mod State
pub mod Execute
pub mod Handlers
pub mod Invariant
pub mod Coverage
