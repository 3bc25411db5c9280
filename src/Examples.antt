-- ===== src/Examples.antt =====
-- Tests of the definitions, and the theorems applied at concrete inputs.
mod Data
mod HlMaker
mod LighterMaker
mod Venues
mod Engine
mod LighterEngine
mod Risk
mod Msgpack
mod Live
mod Transport
mod Native
mod Feed
mod Connection
mod Crypto
mod Hyperliquid
mod LighterLive
mod Perf
