-- ===== src/Live.antt =====
-- src/main_live.cpp: the event loop. Threads enqueue fills and trades; a pass of the loop empties the queues,
-- looks at the feeds and the quotes, and runs the engine.
pub mod Defs
pub mod KillSwitch
pub mod Position
pub mod Config
pub mod Queues
pub mod Outage
pub mod Passes
pub mod LighterPolicy
pub mod Halted
