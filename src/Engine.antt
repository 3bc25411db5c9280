-- ===== src/Engine.antt =====
-- include/arb/engine.hpp, src/engine.cpp: the engines that turn the intents of a strategy into calls of
-- the venues.
pub mod Outcome
pub mod HlMaker
pub mod LighterMaker
