-- ===== src/Risk.antt =====
-- include/arb/risk.hpp, src/risk.cpp: the guard between the strategy's intents and their execution.
pub mod Defs
pub mod Entry
pub mod KillSwitch
